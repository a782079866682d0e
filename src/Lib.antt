-- ===== src/Lib.antt =====
-- Verification of the software stack of tetra-bs, the daemon of a TETRA base station (sw/).
--
-- The daemon is one thread. Frames of the FPGA come in through sw/dma_io; the layers LLC, MLE, MM
-- and CMCE exchange messages over the bus of sw/core; subscribers are kept by sw/persistence.
--
-- Modules and what they model:
--   Prelude: shared names, lists, Boolean tests, and C's error codes as a `Result`.
--   Bits: bits of native numbers.
--   Core.BitBuffer: sw/core/src/bitbuffer.c (bb_init .. bb_len_bits), with the memory in the record.
--   Core.BitBuffer.Codec: readers and writers of fields, as functions on a buffer that return, refuse or
--     fail an assertion.
--   Core.Sap: sw/core/include/tetra/sap.h and types.h. Core.Memory: memcpy on regions of bytes.
--   Core.MsgBus: sw/core/src/msgbus.c. A handler is a number, and the functions behind the numbers
--     are a parameter, since they may call the bus again.
--   Persistence.Profile, Persistence.Db, Persistence.Json, Persistence.Store:
--     sw/persistence/src/db.c. The JSON library is a parameter, the record `Jansson`; what the
--     system calls of a save do is given, and the contents of the disk are logged.
--   DmaIo: sw/dma_io/dma_io.c in the build over pipes. What write, poll and read do is a list of
--     outcomes.
--   Llc: the data of sw/llc/include/tetra/llc.h that the MLE is handed. Llc.Pdu: sw/llc/llc_pdu.c.
--     Llc.Links: sw/llc/llc.c, over the layouts of the envelopes.
--   Mle.Fsm: sw/mle/mle_fsm.c. Mle: sw/mle/mle.c, over the interface `MleUses`: the decoder of MM
--     messages and the layout of the envelopes.
--   Cmce: sw/cmce/cmce_fsm.c and sw/cmce/cmce_nwrk_bcast.c, over the types of
--     sw/cmce/include/tetra/cmce.h. Cmce.Message and Cmce.Pdu: sw/cmce/cmce_pdu.c. Cmce.Handling:
--     sw/cmce/cmce.c, over the layout of the envelope `TleLayout`.
--
-- Conventions: a C function that changes an object returns the new object beside its result; `err e`
-- is the negated errno, a `none` of the bit buffer a failed assertion. Unsigned arithmetic keeps its
-- wrap-around, written `% 2 ^ w`, but for the sums of a position and a length in Core.BitBuffer,
-- which no buffer in memory brings to 2^64. Tests of pointers against NULL are gone where the argument is a
-- value, and kept as an `Option` where the code goes on with NULL.
-- Fuel: the loops over whole bytes of a word have as much fuel as the word has bits, and take 8 of
-- them each round; the loop of maybe_auto_enroll has one unit for each index of the table; the reading
-- of an LLC body has one for each byte that is begun. The loops over writes and reads run along the
-- list of outcomes.
-- Not modelled: that a write reaches the disk only by fsync (it is there at once in
-- Persistence.Store), the opening and closing of channels, the AST snapshot, the decoding and encoding of
-- MM messages, the main loop, the control socket and the web interface.
pub mod Prelude
pub mod Bits
pub mod Core
pub mod Persistence
pub mod DmaIo
pub mod Llc
pub mod Mle
pub mod Cmce
