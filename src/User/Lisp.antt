-- ===== src/User/Lisp.antt =====
-- The Lisp interpreter of user/src/lisp.c.
pub mod Values
pub mod Reader
pub mod Printer
pub mod Builtins
pub mod Eval
pub mod Repl
