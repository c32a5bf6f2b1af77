-- ===== src/Tests.antt =====
-- The theorems at concrete inputs, and runs of the definitions.
mod ByteIo
mod Httpd
mod Gai
mod Sigio
mod Rtt
mod Relay
mod Sockaddr
mod SelectServer
mod Connect
mod Icmpd
mod Threads
mod Web
mod Prefork
mod Checksum
mod TimerList
mod Traceroute
mod HttpConn
