-- ===== src/Procmon.antt =====
-- procmon/procmon.cpp and procmon/plot.cc: a web server that shows a process, with the requests and
-- responses of http/. Stat, StatLine and Lines are about the stat file, Host has the members of class
-- Procmon, Overview its page, Sampling its timer, Server its answers to requests.
pub mod Doubles
pub mod Plot
pub mod Rounding
pub mod Places
pub mod Curve
pub mod Stat
pub mod StatLine
pub mod Lines
pub mod Host
pub mod Sampling
pub mod Overview
pub mod Server
pub mod Window
pub mod Pages
pub mod Replies
pub mod Keys
pub mod Values
pub mod Shown
mod Samples
mod Tests
mod StatTests
mod PlotTests
