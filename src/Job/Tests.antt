-- ===== src/Job/Tests.antt =====
-- Job messages at concrete inputs.
use dirtybird_c_miner.Base.{ℕ, ◌≡◌, refl, false, List, ◌++◌, replicate}
use dirtybird_c_miner.Text.Chars.{codes, str_eq}
use dirtybird_c_miner.Text.Json.{json_str, json_int}
use dirtybird_c_miner.State.{initial}
use dirtybird_c_miner.Job.{parse_job, work_changed, store_job, well_formed, handle_job}

abbrev job_json : List ℕ
job_json =
    codes "{\"jobid\":\"7a\",\"height\": 12,\"blockhashing_blob\":\""
    ++ replicate 96 48
    ++ codes "\"}"

abbrev bad_json : List ℕ
bad_json = codes "{\"jobid\":\"7a\",\"blockhashing_blob\":\"00\"}"

new_job-epoch : (handle_job job_json initial false).1.job_epoch ≡ 1
unfolding handle_job parse_job well_formed store_job work_changed json_str json_int str_eq
new_job-epoch = refl

short_blob-refused : (handle_job bad_json initial false).0 ≡ false
unfolding handle_job parse_job well_formed json_str
short_blob-refused = refl
