-- ===== src/Dirty/Flush.antt =====
-- internal/lobby/shard.go: `flushLevel`, `buildBatch`, `OnFlushResult`, `unloadIdle` and
-- `FlushAllSync`; pkg/store/flush.go: the verdict on the replies to a batch. Which players are resident,
-- which items can be serialised, whether the channel of the flusher has room, and what Redis replied
-- are arguments.
pub mod Lossless
use f.Prelude.{
  ℕ, zero, suc, ◌+◌, ℤ, pos, eqb_ℤ, ◌==◌, if◌then◌else◌, Bool, true, false, not, ◌||◌, ◌&&◌, Option,
  none, some, List, [], ◌∷◌, ◌++◌, length, Result, ok, err,
}
use f.Dirty.{Module, Level, Marks, Item, is_empty, mark_each, take, take_all, take_one, remark}

module _ (resident : ℕ → Bool) (marshals : Item → Bool) where
  -- `buildBatch`: an item whose player is gone is dropped, one that cannot be serialised marked again.
  unfoldable pub build_batch : ℕ → List Item → Marks → List Item × Marks
  build_batch now [] d = ([], d)
  build_batch now (it ∷ its) d =
      let (ents, d') = build_batch now its d in
      let (ents_again, again) = build_batch now its (mark_each now it.id it.modules d) in
      if not (resident it.id)
      then (ents, d')
      else if marshals it
      then (it ∷ ents, d')
      else (ents_again, again)

  -- `flushLevel` with `Submit`: the batch that is on its way, empty if there is none.
  unfoldable pub flush_level : ℕ → Level → ℕ → List ℕ → Bool → Marks → List Item × Marks
  flush_level now l size ids full d =
      let (items, taken) = take l size ids d in
      let (ents, d') = build_batch now items taken in
      if full then ([], remark now ents d') else (ents, d')

-- `OnFlushResult`
unfoldable pub on_flush_result : Bool → ℕ → List Item → Marks → Marks
on_flush_result closed now failed d = if closed then d else remark now failed d

-- The loop of `unloadIdle` over its victims: the entities, who is unloaded, the marks. A player who
-- cannot be serialised is marked again and stays.
abbrev remark_taken : ℕ → Option Item → Marks → Marks
remark_taken now none d = d
remark_taken now (some it) d = remark now (it ∷ []) d

abbrev Victims : Type 0
Victims = List Item × List ℕ × Marks

abbrev victim_of : (Item → Bool) → ℕ → Option Item → Victims → Victims → Victims
victim_of marshals id none (ents, out, d) stays = (ents, id ∷ out, d)
victim_of marshals id (some it) (ents, out, d) stays =
    if marshals it then (it ∷ ents, id ∷ out, d) else stays

unfoldable pub take_victims : (Item → Bool) → ℕ → List ℕ → Marks → Victims
take_victims marshals now [] d = ([], [], d)
take_victims marshals now (id ∷ ids) d =
    let (taken, d') = take_one id d in
    let goes = take_victims marshals now ids d' in
    let stays = take_victims marshals now ids (remark_taken now taken d') in
    victim_of marshals id taken goes stays

-- `unloadIdle` with `Submit`, from the victims on
unfoldable pub unload_idle : (Item → Bool) → ℕ → List ℕ → Bool → Marks → Victims
unload_idle marshals now ids full d =
    let (ents, out, d') = take_victims marshals now ids d in
    if not (is_empty ents) && full then ([], [], remark now ents d') else (ents, out, d')

pub data FlushError : Type 0 where
  fenced write_failed partly_failed : FlushError

-- What `SubmitSync` reports: the entities that failed, whether the epoch was refused, whether the write
-- failed as a whole.
pub record FlushResult : Type 0 where
  pub failed : List Item
  pub is_fenced : Bool
  pub has_error : Bool

abbrev sync_error : FlushResult → Result FlushError (Unit {0})
sync_error r =
    if r.is_fenced
    then err fenced
    else if r.has_error
    then err write_failed
    else if not (is_empty r.failed)
    then err partly_failed
    else ok tt

-- `FlushAllSync`; `write` is the flusher.
unfoldable pub flush_all_sync :
    (ℕ → Bool)
    → (Item → Bool)
    → (List Item → FlushResult)
    → ℕ
    → List ℕ
    → Marks
    → Marks × Result FlushError (Unit {0})
flush_all_sync resident marshals write now ids d =
    let (items, taken) = take_all ids d in
    let (ents, d') = build_batch resident marshals now items taken in
    let res = write ents in
    if is_empty items
    then (d, ok tt)
    else if is_empty ents
    then (d', ok tt)
    else (remark now res.failed d', sync_error res)

-- One reply of a pipeline: an error, an integer, or neither.
pub data Reply : Type 0 where
  failure : Reply
  integer : ℤ → Reply
  other : Reply

-- The loop over the commands of an entity in `pipeline`: whether it is on disk, was refused as
-- outdated, or had an error.
abbrev pub is_written : List Reply → Bool
is_written [] = true
is_written (integer n ∷ rs) = let rest = is_written rs in if eqb_ℤ n (pos 1) then rest else false
is_written (_ ∷ rs) = false

abbrev is_refused : List Reply → Bool
is_refused [] = false
is_refused (integer n ∷ rs) = eqb_ℤ n (pos 0) || is_refused rs
is_refused (_ ∷ rs) = is_refused rs

abbrev has_failure : List Reply → Bool
has_failure [] = false
has_failure (failure ∷ rs) = true
has_failure (_ ∷ rs) = has_failure rs

-- `pipeline`, from the replies on; `exec` tells whether `Exec` returned an error.
unfoldable pub verdict : Bool → List (Item × List Reply) → FlushResult
verdict exec [] = record { failed = []; is_fenced = false; has_error = exec }
verdict exec ((it, rs) ∷ slots) =
    let r = verdict exec slots in
    record {
      failed = if is_written rs then r.failed else it ∷ r.failed;
      is_fenced = is_refused rs || r.is_fenced;
      has_error = has_failure rs || r.has_error;
    }
