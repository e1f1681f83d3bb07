-- ===== src/TaxiControl.antt =====
-- The taxi dispatcher (taxi_control/main.c): driver processes, and the command line that keeps
-- their table and talks to them over sockets.
pub mod Driver
pub mod Cli
