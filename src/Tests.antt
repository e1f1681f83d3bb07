-- ===== src/Tests.antt =====
-- Runs of the models on concrete inputs, by program.
mod Echo
mod Client
mod Taxi
mod Chats
mod Arrays
mod Books
mod ChatClient
mod KernelModule
mod Shell
mod Manager
mod Queues
mod Segments
mod Talk
mod Starts
mod Calc
