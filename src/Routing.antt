-- ===== src/Routing.antt =====
-- The generation graphs: the edges and where a failed run is resumed (the graph and resume router
-- of src/api/control/study_agent, quiz_agent and hint_agent). A field of a state that the routers
-- only test for truth is a Boolean; a field that may also be None is an Option. A name of a node that
-- the routers do not know is `other`.
pub mod Study
pub mod Quiz
pub mod Hint
pub mod Resume
mod Tests
