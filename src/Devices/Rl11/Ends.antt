-- ===== src/Devices/Rl11/Ends.antt =====
-- How a command of the RL11 ends (`rl11_go` of pdp11/rl11/rl11.c).
use ll.Devices.Rk11.Transfer.{Transfer}
use ll.Devices.Rl11.{Rl11}
use ll.Devices.Rl11.Summary.{Summary}
