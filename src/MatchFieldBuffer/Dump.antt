-- ===== src/MatchFieldBuffer/Dump.antt =====
-- packet-buffer/match_field_buffer.h: the functions that print the buffer and match fields. The fixed
-- texts are left out.
use net_walk.Base.{Option, some, Bytes, [], ◌>>=◌, ◌==◌, if◌then◌else◌}
use net_walk.Processor.Print.{Output}
use net_walk.PacketBuffer.Dump.{print_lines, print_ring}
use net_walk.MatchFieldBuffer.{MatchFieldBuffer, match_field_buffer_len, mtch_fld_len}

-- A wrapped buffer is printed up to `match_field_buffer_LEN`, behind the array's end.
unfoldable pub print_mtch_field_buffer : MatchFieldBuffer → Option Output
print_mtch_field_buffer mfb =
    if mfb.buffer_empty_flag == 1
    then some []
    else print_ring match_field_buffer_len mfb.match_field_buffer_head mfb.match_field_buffer_tail
        mfb.match_field_buffer_array

unfoldable pub print_match_field : Bytes → Option Output
print_match_field mf = print_lines mtch_fld_len 0 0 mf >>= λ r. some (r.0)
