-- ===== src/Os.antt =====
-- The operating system layers: env/src/os/linux, env/src/os/dpdk and env/src/os/metal, with the headers
-- env/include/os/clock.h, env/include/os/pci.h and env/include/arch/tsc.h.
pub mod Clock
pub mod Paging
pub mod Pci
pub mod Endian
