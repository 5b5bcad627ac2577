-- ===== src/So5/Errors.antt =====
-- The error codes: dev/so_5_extra/error_ranges.hpp and the `errors` namespaces of the components.
use so5extra.Prelude.{ℕ}

abbrev pub shutdowner_errors : ℕ
shutdowner_errors = 20000

abbrev pub collecting_mbox_errors : ℕ
collecting_mbox_errors = 20100

abbrev pub async_op_errors : ℕ
async_op_errors = 20400

abbrev pub mboxes_round_robin_errors : ℕ
mboxes_round_robin_errors = 21200

abbrev pub mboxes_first_last_subscriber_notification_errors : ℕ
mboxes_first_last_subscriber_notification_errors = 21300

abbrev pub mboxes_composite_errors : ℕ
mboxes_composite_errors = 21400

abbrev pub mboxes_inflight_limit_errors : ℕ
mboxes_inflight_limit_errors = 21500

abbrev pub msg_hierarchy_errors : ℕ
msg_hierarchy_errors = 21600

abbrev pub sync_errors : ℕ
sync_errors = 20900

abbrev pub mboxes_proxy_errors : ℕ
mboxes_proxy_errors = 20500

abbrev pub enveloped_msg_errors : ℕ
enveloped_msg_errors = 20700

abbrev pub revocable_msg_errors : ℕ
revocable_msg_errors = 20800
