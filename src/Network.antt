-- ===== src/Network.antt =====
-- network/tcp_client.hpp, tcp_client.cpp, tcp_server.hpp and tcp_server.cpp: frames over TCP.
-- The operating system is not modelled: what each of its calls returns is an argument, a list where
-- the call stands in a loop.
pub mod Transfer
pub mod Framing
pub mod Termination
pub mod Client
pub mod Server
pub mod Exchange
