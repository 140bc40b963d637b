-- ===== src/Tests.antt =====
-- Runs of the models on concrete inputs, and each result at an input that meets its hypotheses.
mod KString
mod PageAlloc
mod Fs
mod Open
mod Bytes
mod Pipe
mod Tty
mod Console
mod Tree
mod Malloc
mod Process
mod Lisp
mod Printf
mod Editor
mod Shell
mod Rev
mod Programs
