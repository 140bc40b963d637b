-- ===== src/User.antt =====
-- The programs of user/src and their library in user/include.
pub mod Printf
pub mod Lisp
pub mod Editor
pub mod Shell
pub mod Rev
pub mod Tree
