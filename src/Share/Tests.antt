-- ===== src/Share/Tests.antt =====
-- Runs of the receiver on port 10191, and its theorems at concrete inputs.
use pcsuite_rs.Base.{◌≡◌, refl, true, false, List, [], ◌∷◌, ◌++◌, none, some, bytes_eq, inl, arith}
use pcsuite_rs.Base.Wire.{Bytes, codes, to_be, starts_with, position_of, position_from}
use pcsuite_rs.Base.Result.{Result, done}
use pcsuite_rs.Base.Streams.{failed, arrivals}
use pcsuite_rs.Base.Text.{
  strip_prefix, split_once, from_str_radix, digits_from, trim_start, trim_start_loop, white_prefix,
  split, split_loop,
}
use pcsuite_rs.Base.Text.Parts.{behind_first}
use pcsuite_rs.Frames.Payload.{encode}
use pcsuite_rs.Json.{json_object, string, get, Serde}
use pcsuite_rs.FileTrans.Receiver.{started, file_name_of}
use pcsuite_rs.Share.{parse_extra_port, parse_action, is_partial, safe_basename}
use pcsuite_rs.Share.Connect.{read_first_frame}
use pcsuite_rs.Share.Connect.Framing.{read_first_frame-encode}
use pcsuite_rs.Share.Taps.{
  reading, awaiting, aborted, hunting, pulling, Conn, Taps, take_from, tap, reads_frame, tapped,
  moved, Reach, here, then_step, no_taps, set_at,
}
use pcsuite_rs.Share.Taps.Alone.{IsAlone, Reach-IsAlone, lives}
use pcsuite_rs.Share.Taps.Commits.{IsSafe, Reach-IsSafe, tap-supersedes}
use pcsuite_rs.Share.Pull.{
  Event, text, ping, download_ended, Sent, said, pong, Pull, goes_on, returns, on_request,
  on_action, on_event, pull_loop, pull_batch, new_pull, final_status,
}
use pcsuite_rs.Share.Pull.Outcome.{IsAnnounced, pull_batch-IsSuccess}
use pcsuite_rs.Share.Pull.Acks.{Answers, pull_loop-Answers}
use pcsuite_rs.Base.Utf8.{is_utf8}
use pcsuite_rs.Base.Text.{trim, trim_end, to_decimal}
use pcsuite_rs.Http.Chunked.{Chunk}
use pcsuite_rs.Share.Download.{download_chunks, line_size}
use pcsuite_rs.Share.Download.Cut.{IsPiece, IsEnd, download_chunks-encode}
use pcsuite_rs.Share.Files.{extract_zip, extract_loop, dedup_path, try_numbers}
use pcsuite_rs.Mdfs.Tar.Extract.{numbered, split_stem}

port_read :
    (parse_extra_port (codes "{\"ipArr\":[1],\"port\": \"8081\"}") ≡ 8081)
    × (parse_extra_port (codes "{\"port\":99999}") ≡ 8080)
unfolding parse_extra_port behind_first position_of position_from starts_with trim_start
    trim_start_loop white_prefix from_str_radix digits_from
port_read = (refl, refl)

actions_read :
    (parse_action (codes "action:1:sendRequest?{}")
      ≡ some (codes "1", codes "sendRequest", codes "{}"))
    × (parse_action (codes "ack:2:status") ≡ none)
unfolding parse_action strip_prefix starts_with split_once
actions_read = (refl, refl)

partials_named :
    (is_partial (codes ".vivoshare-1.zip.part") ≡ true) × (is_partial (codes "a.zip.part") ≡ false)
unfolding is_partial starts_with bytes_eq
partials_named = (refl, refl)

names_kept :
    (safe_basename (codes "/sdcard/a.jpg") ≡ some (codes "a.jpg"))
    × (safe_basename (codes "/..") ≡ none)
unfolding safe_basename file_name_of split split_loop split_once bytes_eq
names_kept = (refl, refl)

abbrev frame_cut : List Bytes
frame_cut = codes "PAY_LOAD_1" ∷ (0 ∷ 0 ∷ 0 ∷ 2 ∷ b'{' ∷ []) ∷ codes "}!" ∷ []

read_first_frame-encode_example :
    read_first_frame (arrivals frame_cut (failed ∷ [])) ≡ done (codes "{}")
unfolding encode to_be
read_first_frame-encode_example =
    read_first_frame-encode (codes "{}") frame_cut (failed ∷ []) (codes "!") (omega arith)
      (refl, (refl, (refl, tt))) refl

-- One connection whose frame has been read, and a second one.
abbrev one_tap : Taps
one_tap = tap no_taps

abbrev waiting_conn : Conn
waiting_conn = record { outer = awaiting; inner = hunting; committed = false }

abbrev one_read : Taps
one_read = record {
  conns = set_at 0 waiting_conn one_tap.conns;
  next = one_tap.next;
  current = one_tap.current;
}

abbrev two_taps : Taps
two_taps = tap one_read

to_one_tap : Reach no_taps one_tap
to_one_tap = then_step no_taps (here no_taps) (tapped no_taps)

to_one_read : Reach no_taps one_read
unfolding tap take_from
to_one_read =
    then_step no_taps to_one_tap
      (moved one_tap 0 waiting_conn (reads_frame hunting false (λ e. cc)))

Reach-IsAlone_example : IsAlone two_taps
Reach-IsAlone_example = Reach-IsAlone two_taps (then_step no_taps to_one_read (tapped one_read))

tap-supersedes_example :
    (two_taps.current ≡ some 1)
    × (lives (two_taps.conns 1) ≡ true)
    × ((two_taps.conns 0).outer ≡ aborted)
    × (awaiting ≡ awaiting → lives (two_taps.conns 0) ≡ true)
    × (awaiting ≡ reading → lives (two_taps.conns 0) ≡ false)
unfolding tap take_from
tap-supersedes_example = tap-supersedes one_read 0 (omega arith) refl refl refl

-- The same connection once its task has been announced.
abbrev busy_conn : Conn
busy_conn = record { outer = awaiting; inner = pulling; committed = true }

abbrev one_busy : Taps
one_busy = record { conns = set_at 0 busy_conn one_read.conns; next = 1; current = some 0 }

one_busy-IsSafe : IsSafe 0 one_busy
one_busy-IsSafe = record { known = omega arith; chosen = refl; alive = λ e. cc; first = inl refl }

Reach-IsSafe_example : IsSafe 0 (tap one_busy)
Reach-IsSafe_example =
    Reach-IsSafe 0 (then_step one_busy (here one_busy) (tapped one_busy)) one_busy-IsSafe

-- Any JSON text is a task.
abbrev one_task : Serde
one_task = record {
  from_str = λ bs. some (json_object ((codes "id", string (codes "t1")) ∷ []));
  to_string = λ v. [];
}

abbrev good_download : Bytes → Result (List Bytes)
good_download task_id = done (codes "a.jpg" ∷ [])

abbrev exchange : List Event
exchange =
    text (codes "action:0:versionNegotiation?{}")
    ∷ ping []
    ∷ text (codes "action:1:sendRequest?{}")
    ∷ []

abbrev acks : List Sent
acks =
    said (
      codes "ack:0:versionNegotiation?{\"version\":1,\"threadLimit\":5,\"device_avatar_uri\":\"\"}")
    ∷ pong []
    ∷ said (codes "ack:1:sendRequest?{\"versions\":[1]}")
    ∷ []

abbrev pulling_state : Pull
pulling_state = record {
  wire = acks;
  reports = started [] ∷ [];
  pending_task = some (codes "t1");
  committed = true;
}

exchanged : pull_loop one_task (λ n. true) good_download exchange new_pull ≡ goes_on pulling_state
unfolding pull_loop on_event on_action on_request parse_action strip_prefix starts_with split_once
    bytes_eq get
exchanged = refl

pull_loop-Answers_example : (ms : List Sent) × Answers exchange ms × (acks ≡ [] ++ ms)
pull_loop-Answers_example =
    pull_loop-Answers one_task (λ n. true) good_download (λ n. refl) exchange new_pull pulling_state
      exchanged

abbrev ended_state : Pull
ended_state = record {
  wire = acks ++ (said (codes "action:2:status?{\"taskId\":\"t1\",\"type\":\"1\"}") ∷ []);
  reports = started [] ∷ [];
  pending_task = none;
  committed = true;
}

finished_exchange :
    pull_batch one_task (λ n. true) good_download true (exchange ++ (download_ended ∷ []))
    ≡ returns ended_state (done (codes "a.jpg" ∷ []))
unfolding pull_batch pull_loop on_event on_action on_request parse_action strip_prefix starts_with
    split_once bytes_eq get final_status
finished_exchange = refl

pull_batch-IsSuccess_example :
    (task_id : Bytes) × (good_download task_id ≡ done (codes "a.jpg" ∷ []))
    × IsAnnounced ended_state
pull_batch-IsSuccess_example =
    pull_batch-IsSuccess one_task (λ n. true) good_download true (exchange ++ (download_ended ∷ []))
      ended_state (codes "a.jpg" ∷ []) finished_exchange

-- One chunk with its size line, and the end, cut in the middle of the chunk.
abbrev one_piece : Chunk
one_piece = record { line = codes "3;x"; content = codes "abc" }

one_piece-IsPiece : IsPiece one_piece
unfolding line_size from_str_radix digits_from trim trim_start trim_start_loop white_prefix
    split_once trim_end is_utf8
one_piece-IsPiece = record {
  no_cr = (
    λ e. absurd (omega (arith, e)),
    (λ e. absurd (omega (arith, e)), (λ e. absurd (omega (arith, e)), tt)),
  );
  sized = refl;
  nonempty = omega arith;
}

zero_line-IsEnd : IsEnd (codes "0")
unfolding line_size from_str_radix digits_from trim trim_start trim_start_loop white_prefix
    split_once trim_end is_utf8
zero_line-IsEnd = record { no_cr = (λ e. absurd (omega (arith, e)), tt); sized = refl }

download_chunks-encode_example :
    download_chunks (codes "3;") (arrivals (codes "x\r\na" ∷ codes "bc\r\n0\r\n\r\n" ∷ []) [])
    ≡ done (codes "abc")
download_chunks-encode_example =
    download_chunks-encode (one_piece ∷ []) (codes "0") (codes "\r\n") (codes "3;")
      (codes "x\r\na" ∷ codes "bc\r\n0\r\n\r\n" ∷ []) [] (one_piece-IsPiece, tt) zero_line-IsEnd
      (refl, (refl, tt)) refl

-- A second file of one name gets a number.
unpacked :
    extract_zip
      (λ p. true)
      (codes "/in")
      (record { is_dir = false; name = some (codes "/sdcard/a.jpg"); content = some (7 ∷ []) }
        ∷ record { is_dir = false; name = some (codes "b/a.jpg"); content = some [] }
        ∷ [])
      []
    ≡ (
      (codes "/in/a.jpg", 7 ∷ []) ∷ (codes "/in/a (1).jpg", []) ∷ [],
      done (codes "a.jpg" ∷ codes "a (1).jpg" ∷ []),
    )
unfolding extract_zip extract_loop dedup_path try_numbers safe_basename file_name_of split
    split_loop split_once bytes_eq numbered to_decimal split_stem
unpacked = refl
