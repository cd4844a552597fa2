-- ===== src/Sockets/Examples.antt =====
-- The packet socket on a machine with docker0.
use tnsparser.Sockets.{creat_sock}
use tnsparser.Sockets.Device.{Creates, creat_sock-Activates}
use tnsparser.Sockets.Machine.{linux, net, machine}

creat_sock-Activates_example : Creates linux net 0 machine (creat_sock linux 0 machine)
creat_sock-Activates_example = creat_sock-Activates linux net 0 machine
