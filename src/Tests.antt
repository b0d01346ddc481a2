-- ===== src/Tests.antt =====
-- Concrete runs of the models, at which the theorems apply.
mod Machine
mod Cribs
mod Collections
mod Sources
mod Graphs
mod Validator
mod Running
mod Texts
mod Printed
