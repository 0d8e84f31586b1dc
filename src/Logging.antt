-- ===== src/Logging.antt =====
-- exec.c: the names of log items on the command line, `cpu_str_to_log_mask`.
mod Items
mod Mask
mod Tests
