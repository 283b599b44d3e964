-- ===== src/Net.antt =====
-- kernel/net: Ethernet, ARP, IPv4 and the ICMP echo, over the network card's two operations.
pub mod Banner
pub mod Bytes
pub mod Stack
pub mod Address
