-- ===== src/Command/Runs.antt =====
-- Requests at concrete inputs.
use lpctools.Base.{◌≡◌, arith, false, none}
use lpctools.Command.{ret_code_message, entry}
use lpctools.Command.Replies.{IsGood, ret_code_message_lem}

ret_code_message_lem_example :
    IsGood 10 (ret_code_message 10 false false) × (ret_code_message 20 false false ≡ entry none)
ret_code_message_lem_example = ret_code_message_lem 10 false false (omega arith)
