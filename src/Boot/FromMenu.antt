-- ===== src/Boot/FromMenu.antt =====
-- The file and the keys together: what src/blob/boot_modes.c starts from its menu.
