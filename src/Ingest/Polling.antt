-- ===== src/Ingest/Polling.antt =====
-- The cursor of a polled repository (bkb-ingest/src/sources/http.rs: PollCursor). Times are
-- nanoseconds since the epoch. The texts of JSON (serde_json) and of times (chrono) are parameters:
-- `encode` and `decode` for a cursor, `print` and `read` for a time.
use bitcoin_knowledge_base.Base.{
  ℕ, ◌-◌, ◌*◌, ◌/◌, String, ◌≡◌, refl, ap, ◌∙◌, inl, inr, Bool, true, false, not, Option, none,
  some, List, [], arith, leb, eqb, if◌then◌else◌, Bool-cases, ◌>>=◌, ◌>>◌, guard, starts_with,
}
use bitcoin_knowledge_base.Model.Document.{Document}
use bitcoin_knowledge_base.Ingest.StorePage.{SyncPage, page_cursor}

pub record PollCursor : Type 0 where
  pub version : ℕ
  pub since : Option String
  pub until : ℕ
  pub page : ℕ
  pub complete : Bool
  pub last_full : ℕ
  pub pending : List ℕ
  pub child_page : ℕ
  pub more_parents : Bool
  pub review_ids : List ℕ

unfoldable pub new_cursor : Option String → ℕ → PollCursor
new_cursor since now = record {
  version = 1;
  since = since;
  until = now;
  page = 1;
  complete = false;
  last_full = now;
  pending = [];
  child_page = 1;
  more_parents = true;
  review_ids = [];
}

abbrev pub day : ℕ
day = 86400 * 1000000000

abbrev pub five_minutes : ℕ
five_minutes = 300 * 1000000000

module _ (print : ℕ → String) where
  -- A cycle that is over is followed by a new one, which starts five minutes before the end of the
  -- last window, or, after a week without one, is a full one.
  unfoldable pub restart : PollCursor → ℕ → PollCursor
  unfolding new_cursor
  restart c now =
      if leb 7 ((now - c.last_full) / day)
      then new_cursor none now
      else record (new_cursor (some (print (c.until - five_minutes))) now) {
        last_full = c.last_full;
      }

  unfoldable pub read_cursor :
      (String → Option PollCursor) → (String → Option ℕ) → String → ℕ → Option PollCursor
  unfolding new_cursor
  read_cursor decode read text now =
      if starts_with text "{"
      then (do c ← decode text; guard (eqb c.version 1); some c)
      else (do since ← read text; some (new_cursor (some (print since)) now))

  unfoldable pub resume :
      (String → Option PollCursor) → (String → Option ℕ) → Option String → ℕ → Option PollCursor
  unfolding read_cursor restart new_cursor
  resume decode read none now = some (new_cursor none now)
  resume decode read (some text) now = do
    c ← read_cursor decode read text now
    some (if c.complete then restart c now else c)

-- `result`: the page of a cursor, which says in one of two fields where to go on.
unfoldable pub page_of : (PollCursor → String) → PollCursor → List Document → Bool → SyncPage
page_of encode c documents more =
    let text = encode (record c { complete = not more }) in
    record {
      checkpoint = if more then none else some text;
      documents = documents;
      references = [];
      next_cursor = if more then some text else none;
    }

-- Seven whole days have passed when a week has.
full_week : (x : ℕ) → leb 7 (x / day) ≡ leb 604800000000000 x
full_week x = ground arith

restart_lem :
    (print : ℕ → String) (c : PollCursor) (now : ℕ)
    → restart print c now ≡ record {
      version = 1;
      since =
          if leb 604800000000000 (now - c.last_full)
          then none
          else some (print (c.until - 300000000000));
      until = now;
      page = 1;
      complete = false;
      last_full = if leb 604800000000000 (now - c.last_full) then now else c.last_full;
      pending = [];
      child_page = 1;
      more_parents = true;
      review_ids = [];
    }
unfolding restart new_cursor
restart_lem print c now =
    let same = full_week (now - c.last_full) in
    elim (Bool-cases (leb 604800000000000 (now - c.last_full))) [
      | inl t ↦ let full = same ∙ t in rw t (rw (full, restart) refl)
      | inr f ↦ let recent = same ∙ f in rw f (rw (recent, restart) refl)
    ]

-- A cursor of version 1 that is written as a JSON object and read back unchanged is taken up where its
-- page left it: while there is more, the cursor that storing the page keeps resumes the same window at
-- the same place. Once there is not, it starts a window up to now at the first page: one that begins
-- five minutes before the end of the last window and keeps the time of the last full one, or, seven
-- days after the last full one, a full one.
pub resume-page_of :
    (print : ℕ → String) (encode : PollCursor → String) (decode : String → Option PollCursor)
    (read : String → Option ℕ) (c : PollCursor) (documents : List Document) (more : Bool)
    (previous : Option String) (now : ℕ)
    → decode (encode (record c { complete = not more })) ≡ some (record c { complete = not more })
    → starts_with (encode (record c { complete = not more })) "{" ≡ true
    → c.version ≡ 1
    → resume print decode read (page_cursor (page_of encode c documents more) previous) now
      ≡ some (
          if more then record c { complete = false } else record {
            version = 1;
            since =
                if leb 604800000000000 (now - c.last_full)
                then none
                else some (print (c.until - 300000000000));
            until = now;
            page = 1;
            complete = false;
            last_full = if leb 604800000000000 (now - c.last_full) then now else c.last_full;
            pending = [];
            child_page = 1;
            more_parents = true;
            review_ids = [];
          })
unfolding resume read_cursor page_of page_cursor
resume-page_of print encode decode read c documents true previous now back object one =
    rw object (rw back (rw one refl))
resume-page_of print encode decode read c documents false previous now back object one =
    rw object (rw back (rw one (ap some (restart_lem print (record c { complete = true }) now))))
