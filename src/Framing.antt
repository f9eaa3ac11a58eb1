-- ===== src/Framing.antt =====
-- libs/st2110core/src/backends/mtl/mtl_worker_ipc_framing.cpp and
-- libs/st2110core/include/st2110/backends/mtl/mtl_worker_ipc_framing.hpp: frames of a length and a
-- payload on a stream socket, with file descriptors beside them. What the system calls answer is a list
-- of answers, one for each call; a call for which there is none is still waiting.
pub mod Send
pub mod Sending
pub mod Passing
pub mod Receive
pub mod Descriptors
pub mod Receiving
