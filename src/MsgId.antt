-- ===== src/MsgId.antt =====
-- pkg/msgid/msgid.go: the message ids that travel as the slot's message type, and the ids that the
-- transport reserves (listed in the comment there; the transport itself is not part of this tree).
use xll_gen.Prelude.{ℕ}

abbrev pub msg_batch_async_response : ℕ
msg_batch_async_response = 128

abbrev pub msg_chunk : ℕ
msg_chunk = 129

abbrev pub msg_set_ref_cache : ℕ
msg_set_ref_cache = 130

abbrev pub msg_calculation_ended : ℕ
msg_calculation_ended = 131

abbrev pub msg_calculation_canceled : ℕ
msg_calculation_canceled = 132

abbrev pub msg_rtd_connect : ℕ
msg_rtd_connect = 133

abbrev pub msg_rtd_disconnect : ℕ
msg_rtd_disconnect = 134

abbrev pub msg_rtd_update : ℕ
msg_rtd_update = 135

abbrev pub msg_rtd_heartbeat : ℕ
msg_rtd_heartbeat = 136

abbrev pub msg_command_invoke : ℕ
msg_command_invoke = 137

abbrev pub msg_rtd_once_grid : ℕ
msg_rtd_once_grid = 138

abbrev pub msg_ack : ℕ
msg_ack = 139

abbrev pub msg_user_start : ℕ
msg_user_start = 140

-- `shm.MsgTypeSystemError`, whose value the package's comment gives.
abbrev pub msg_system_error : ℕ
msg_system_error = 127
