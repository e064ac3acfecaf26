-- ===== src/Run/Unfinished.antt =====
-- crates/ssh-core/src/run.rs: what `Runs::unfinished` says of the runs that are still going.
use mcp_ssh_rs.Prelude.{
  ◌&&◌, ◌||◌, sym, ap, ◌∙◌, false≢true, eq→≡, Bool-cases, inl, inr, Result, ok, err, ◌≡◌, refl, ℕ,
  Bool, true, false, Option, none, some, List, [], ◌∷◌, arith, if◌then◌else◌, ◌==◌,
}
use mcp_ssh_rs.Text.{Text, text_eq}
use mcp_ssh_rs.Dict.{get, insert, remove, get-insert, get-insert_self, get-remove}
use mcp_ssh_rs.Audit.{Authorization}
use mcp_ssh_rs.Transfer.{Failure}
use mcp_ssh_rs.Files.Info.{FileInfo}
use mcp_ssh_rs.Run.{Transferred}
use mcp_ssh_rs.Run.Collected.{push}
use mcp_ssh_rs.Run.Store.{
  Live, Runs, is_running, is_running_at, registered, register, change, changed_at, without,
  drop_reading, settle_transfer, request_cancel, cancel, forget, stop, unfinished,
}
use mcp_ssh_rs.Run.Service.{
  Phase, going, settled, Service, with_reader, Step, starts, collects, collects_errors, settles,
  transfers, announces, panics, cancels, forgets, stops, Reached, started, then_step,
}

abbrev pub has : Text → List Text → Bool
has id [] = false
has id (other ∷ ids) = if other == id then true else has id ids

abbrev is_going : Option Phase → Bool
is_going (some going) = true
is_going _ = false

-- A run that goes on has a reader which goes on too, and is in the set of readers, unless it panicked.
abbrev covers : Service → Text → Bool
covers w id = is_going (get id w.readers) && has id (unfinished w.runs) || has id w.lost

abbrev pub IsCovered : Service → Type 0
IsCovered w = (id : Text) → is_running_at (get id w.runs.records) ≡ true → covers w id ≡ true

has-without :
    (id other : Text) (ids : List Text)
    → has other (without id ids) ≡ (if id == other then false else has other ids)
has-without id other [] = ground arith
has-without id other (i ∷ ids) = ground (
  arith,
  text_eq.beq_iff i id,
  text_eq.beq_iff i other,
  text_eq.beq_iff id other,
  has-without id other ids,
)

abbrev Keeps : (Live → Live) → Type 0
Keeps f = (live : Live) → is_running (f live).state ≡ true → is_running live.state ≡ true

get-change :
    (id other : Text) (f : Live → Live) (found : Option Live) (runs : Runs)
    → Keeps f
    → get id runs.records ≡ found
    → is_running_at (get other (changed_at id f found runs.records)) ≡ true
    → is_running_at (get other runs.records) ≡ true
get-change id other f none runs keeps e h = h
get-change id other f (some live) runs keeps e h =
    ground (arith, text_eq.beq_iff id other, keeps live, get-insert id other (f live) runs.records)

-- What a reader writes while its run goes on.
change-IsCovered :
    (id : Text) (f : Live → Live) (w : Service)
    → Keeps f
    → IsCovered w
    → IsCovered (record w { runs = change id f w.runs })
change-IsCovered id f w keeps covered other h =
    covered other (get-change id other f (get id w.runs.records) w.runs keeps refl h)

-- What settles a run leaves it not going.
abbrev Ends : (Live → Live) → Type 0
Ends f = (live : Live) → is_running (f live).state ≡ false

ended-at :
    (id : Text) (f : Live → Live) (found : Option Live) (runs : Runs)
    → Ends f
    → get id runs.records ≡ found
    → is_running_at (get id (changed_at id f found runs.records)) ≡ false
ended-at id f none runs ends e = rw e refl
ended-at id f (some live) runs ends e = rw (get-insert_self id (f live) runs.records) (ends live)

settle-IsCovered :
    (id : Text) (f : Live → Live) (w : Service)
    → Ends f
    → IsCovered w
    → IsCovered (record w { runs = change id f w.runs; readers = insert id settled w.readers })
settle-IsCovered id f w ends covered other h = elim (Bool-cases (id == other)) [
  | inl same ↦ absurd (
      false≢true (
        sym (ended-at id f (get id w.runs.records) w.runs ends refl)
        ∙ ap (λ k. is_running_at (get k (change id f w.runs).records)) (eq→≡ id other same)
        ∙ h))
  | inr apart ↦ ground (
    arith,
    apart,
    change-IsCovered id f w (λ live e. absurd (false≢true (sym (ends live) ∙ e))) covered other h,
    get-insert id other settled w.readers,
  )
]

request_cancel-Keeps : Keeps request_cancel
request_cancel-Keeps live h = ground arith

settle_transfer-Ends :
    (is_upload cancelled : Bool) (moved : Result Failure (Option Transferred × Option FileInfo))
    → Ends (settle_transfer is_upload cancelled moved)
unfolding settle_transfer
settle_transfer-Ends is_upload cancelled (ok (file, info)) live = refl
settle_transfer-Ends is_upload cancelled (err cause) live = refl

register-IsCovered :
    (id : Text) (a : Authorization) (w : Service)
    → IsCovered w
    → IsCovered (record w {
      runs = (register id a w.runs).0;
      readers = with_reader w.runs.stopping id w.readers;
    })
unfolding register
register-IsCovered id a w covered other h = elim (Bool-cases w.runs.stopping) [
  | inl refused ↦ rw refused (covered other (ground (arith, refused, h)))
  | inr open_store ↦ ground (
    arith,
    open_store,
    h,
    text_eq.beq_iff id other,
    covered other,
    get-insert id other (registered w.runs.output_bytes a) w.runs.records,
    get-insert id other going w.readers,
  )
]

announces-IsCovered :
    (id : Text) (w : Service)
    → get id w.readers ≡ some settled
    → IsCovered w
    → IsCovered (record w { runs = drop_reading id w.runs; readers = remove id w.readers })
unfolding drop_reading
announces-IsCovered id w e covered other h = ground (
  arith,
  e,
  text_eq.beq_iff id other,
  covered other h,
  has-without id other w.runs.reading,
  get-remove id other w.readers,
)

panics-IsCovered :
    (id : Text) (w : Service)
    → IsCovered w
    → IsCovered (record w {
      runs = drop_reading id w.runs;
      readers = remove id w.readers;
      lost = id ∷ w.lost;
    })
unfolding drop_reading
panics-IsCovered id w covered other h = ground (
  arith,
  text_eq.beq_iff id other,
  covered other h,
  has-without id other w.runs.reading,
  get-remove id other w.readers,
)

forget-IsCovered :
    (id : Text) (w : Service) → IsCovered w → IsCovered (record w { runs = (forget id w.runs).0 })
unfolding forget
forget-IsCovered id w covered other h =
    ground (arith, text_eq.beq_iff id other, covered other, get-remove id other w.runs.records)

Step-IsCovered : (w : Service) {after : Service} → Step w after → IsCovered w → IsCovered after
unfolding cancel stop
Step-IsCovered w (starts id a) covered = register-IsCovered id a w covered
Step-IsCovered w (collects id piece e) covered =
    change-IsCovered id (λ live. record live { stdout = push live.stdout piece }) w (λ live h. h)
      covered
Step-IsCovered w (collects_errors id piece e) covered =
    change-IsCovered id (λ live. record live { stderr = push live.stderr piece }) w (λ live h. h)
      covered
Step-IsCovered w (settles id state e ended) covered =
    settle-IsCovered id (λ live. record live { state = state }) w (λ live. ended) covered
Step-IsCovered w (transfers id is_upload cancelled moved e) covered =
    settle-IsCovered id (settle_transfer is_upload cancelled moved) w
      (settle_transfer-Ends is_upload cancelled moved) covered
Step-IsCovered w (announces id e) covered = announces-IsCovered id w e covered
Step-IsCovered w (panics id phase e) covered = panics-IsCovered id w covered
Step-IsCovered w (cancels id elapsed) covered =
    change-IsCovered id request_cancel w request_cancel-Keeps covered
Step-IsCovered w (forgets id) covered = forget-IsCovered id w covered
Step-IsCovered w stops covered = covered

Reached-IsCovered : (output_bytes : ℕ) (w : Service) → Reached output_bytes w → IsCovered w
unfolding get
Reached-IsCovered output_bytes _ started id h = ground arith
Reached-IsCovered output_bytes after (then_step reached step) id h =
    Step-IsCovered _ step (Reached-IsCovered output_bytes _ reached) id h

-- After any starts, output, settlements, announcements, cancellations, releases and stops, in any order
-- in which a reader settles its run before it announces it, and any panics of readers: a run that is
-- still going is among those that `unfinished` lists, or its reader panicked.
pub Reached-unfinished :
    (output_bytes : ℕ) (w : Service) (id : Text)
    → Reached output_bytes w
    → is_running_at (get id w.runs.records) ≡ true
    → (has id (unfinished w.runs) || has id w.lost) ≡ true
Reached-unfinished output_bytes w id reached h =
    ground (arith, Reached-IsCovered output_bytes w reached id h)
