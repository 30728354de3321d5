-- ===== src/Drivers.antt =====
-- drivers/: the text screen (screen.c) and the keyboard (keyboard.c).
pub mod Screen
pub mod Keyboard
pub mod Ide
