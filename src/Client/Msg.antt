-- ===== src/Client/Msg.antt =====
-- The message numbers that esp-idf/src/ssh_client.cpp has and the server has not.
use sshd.Base.{ℕ}

abbrev pub userauth_banner : ℕ
userauth_banner = 53

abbrev pub userauth_info_request : ℕ
userauth_info_request = 60

abbrev pub userauth_info_response : ℕ
userauth_info_response = 61

abbrev pub channel_extended_data : ℕ
channel_extended_data = 95
