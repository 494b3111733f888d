-- ===== src/Tests.antt =====
-- Each theorem applied to concrete values, by the part of the program that it is about.
mod Link
mod Sender
mod Net
mod Setup
mod Requests
mod Board
mod Screen
pub mod Fakes
pub mod Printer
mod Exchange
mod Port
mod Web
