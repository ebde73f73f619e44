-- ===== src/Capture.antt =====
-- Qt/ZMonitor/PacketCapture: the counters of the flows (Table) and the pcap callback (Packet).
pub mod Table
pub mod Packet
pub mod Accounting
