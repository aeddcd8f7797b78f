-- ===== src/Utils.antt =====
-- utils.c and utils.h: paths and folders, and the transfer of file contents. `equals` stands in
-- CString, beside the functions of the C library.
pub mod Paths
pub mod Transfer
