-- ===== src/Doctor/Parsers.antt =====
-- box/doctor/src/parse: what is read from the output of free, swapon, systemctl, ps, git and dmesg.
pub mod Tables
pub mod Processes
pub mod Worktrees
pub mod KernelLog
