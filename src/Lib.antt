-- ===== src/Lib.antt =====
-- NetWalk, an OpenFlow data plane: captured packets are queued byte by byte, their header fields are
-- collected into match fields, and a flow unit looks the match fields up in a TCAM; a packet that
-- misses the table is answered with a packet-in message to the controller.
--
-- The parts, and the files that model them:
--   Bits: set_bit, reset_bit and read_bit of flow-processing-unit/bit_operations.h
--   ModifyField: extract_field and replace_field of flow-processing-unit/modify_field.h
--   PacketBuffer: the ring of packet-buffer/packet_buffer.h and its two readers
--   Capture: the frames that packet/packet.h loads into the packet buffer, and their way through it
--   MatchFieldBuffer: the ring of packet-buffer/match_field_buffer.h
--   PreProcessor: pre-composer/pre_processing.h, from a queued packet to a match field
--   FlowUnit: the tables of flow-processing-unit/flow_unit.h; Search, Cache, Insert, Delete, Modify
--     and Apply: its functions; Groups: the rows under one mask; Histories: sequences of calls
--   Processor: the records, prints, writes and comparisons of processor/processor.h
--   OpenflowProcess: the messages of processor/openflow_process.h
--   Base: tests, byte arrays, loops and copies that the others share; Tests: concrete inputs
--
-- How they interact: Capture adds bytes to the packet buffer of PacketBuffer. PreProcessor reads
-- them by the second reading index, builds a match field with Bits and adds it to MatchFieldBuffer.
-- The match field and the packet, taken off the two buffers, are what FlowUnit is given. The
-- definitions have the names of the C functions; a long function is cut into parts, which its
-- definition composes in the order of the source.
--
-- State is passed explicitly: a function takes the struct or array and returns it changed. An array
-- is a list of bytes, and an access outside of it is `none`, so a theorem that says that a function
-- ends without a fault says that every access lies inside. What `malloc` and local arrays hold at
-- first is an argument. Bytes are numbers below 256 with the wrap-around written out. Loops are
-- counted by `for_range` or by recursion on the number of rounds left, so no fuel is needed.
-- The events of the packet capture library are a list.
--
-- Of the flow unit, Groups says when the rows and the masks fit together: each row belongs to the mask
-- with the number of its group, which the group bits of the rows before it count.
--
-- Not modelled: fixed texts and log files; opening captures, and the packets that packet/packet.h
-- hands out by pointers to local variables; processor_start and processor_print, which store and print
-- pointers; the vendored headers under include/; the generated test entries, drivers, stubs and older
-- copies of the parts.
pub mod Base
pub mod Bits
pub mod ModifyField
pub mod PacketBuffer
pub mod Capture
pub mod MatchFieldBuffer
pub mod PreProcessor
pub mod FlowUnit
pub mod Processor
pub mod OpenflowProcess
pub mod Tests
