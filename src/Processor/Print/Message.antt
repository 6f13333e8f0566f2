-- ===== src/Processor/Print/Message.antt =====
-- processor/processor.h: the `print_` functions for the fields of OpenFlow messages.
use net_walk.Base.{ℕ, Option, Bytes}
use net_walk.Processor.Print.{Output, print_bytes, hex}

unfoldable pub print_ofpt_version : Bytes → ℕ → Option Output
print_ofpt_version = print_bytes 1 hex

unfoldable pub print_ofpt_type : Bytes → ℕ → Option Output
print_ofpt_type = print_bytes 1 hex

unfoldable pub print_ofpt_length : Bytes → ℕ → Option Output
print_ofpt_length = print_bytes 2 hex

unfoldable pub print_ofpt_xid : Bytes → ℕ → Option Output
print_ofpt_xid = print_bytes 4 hex

unfoldable pub print_ofpt_buffer_id : Bytes → ℕ → Option Output
print_ofpt_buffer_id = print_bytes 4 hex

unfoldable pub print_ofpt_total_length : Bytes → ℕ → Option Output
print_ofpt_total_length = print_bytes 2 hex

unfoldable pub print_ofpt_in_port : Bytes → ℕ → Option Output
print_ofpt_in_port = print_bytes 2 hex

unfoldable pub print_ofpt_wildcard : Bytes → ℕ → Option Output
print_ofpt_wildcard = print_bytes 4 hex

unfoldable pub print_ofpt_reason : Bytes → ℕ → Option Output
print_ofpt_reason = print_bytes 1 hex

unfoldable pub print_ofpt_cookie : Bytes → ℕ → Option Output
print_ofpt_cookie = print_bytes 8 hex

unfoldable pub print_oftp_command : Bytes → ℕ → Option Output
print_oftp_command = print_bytes 2 hex

unfoldable pub print_oftp_idle_timeout : Bytes → ℕ → Option Output
print_oftp_idle_timeout = print_bytes 2 hex

unfoldable pub print_oftp_hard_timeout : Bytes → ℕ → Option Output
print_oftp_hard_timeout = print_bytes 2 hex

unfoldable pub print_oftp_priority : Bytes → ℕ → Option Output
print_oftp_priority = print_bytes 2 hex

unfoldable pub print_oftp_buffer_id : Bytes → ℕ → Option Output
print_oftp_buffer_id = print_bytes 4 hex

unfoldable pub print_oftp_out_port : Bytes → ℕ → Option Output
print_oftp_out_port = print_bytes 2 hex

unfoldable pub printf_oftp_flag : Bytes → ℕ → Option Output
printf_oftp_flag = print_bytes 2 hex

unfoldable pub print_oftp_action_type : Bytes → ℕ → Option Output
print_oftp_action_type = print_bytes 2 hex

unfoldable pub print_oftp_length : Bytes → ℕ → Option Output
print_oftp_length = print_bytes 2 hex

unfoldable pub print_oftp_action_port : Bytes → ℕ → Option Output
print_oftp_action_port = print_bytes 2 hex

unfoldable pub print_oftp_max_length : Bytes → ℕ → Option Output
print_oftp_max_length = print_bytes 2 hex
