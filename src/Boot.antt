-- ===== src/Boot.antt =====
-- The boot loader, boot/x86.
pub mod Print
pub mod Vga
pub mod Bios
pub mod Exfat
pub mod Directory
pub mod Stage2
