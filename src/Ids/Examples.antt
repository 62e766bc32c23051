-- ===== src/Ids/Examples.antt =====
-- Identifiers of include/l4/thread.h: the thread 0x41 with the version 1.
