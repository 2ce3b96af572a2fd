-- ===== src/Examples.antt =====
-- The theorems at concrete inputs: a page with three Elements, and a Jaws that serves one visitor.
mod Pages
mod Visits
mod Texts
mod Options
mod Calls
mod Children
mod Loops
mod Sessions
mod Numbers
