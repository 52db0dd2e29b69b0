-- ===== src/Process.antt =====
-- vochain/state/process.go: the processes (elections) of the state and their status machine, with
-- vochain/state/processblockregistry.go and vochain/state/censusorigins.go.
pub mod Status
pub mod Frame
pub mod Final
pub mod Keys
use vocdoni_node.Base.{
  ℕ, ◌+◌, Bool, true, false, not, ◌||◌, ◌&&◌, Option, none, some, List, [], ◌∷◌, ltb, leb, ◌==◌,
  max, if◌then◌else◌,
}
use vocdoni_node.Base.Lists.{length}
use vocdoni_node.Base.Bytes.{Bytes, bytes_equal}
use vocdoni_node.Base.Words.{add32}
use vocdoni_node.Base.Dict.{Dict, lookup, insert, erase}
use vocdoni_node.Chain.{
  Process, ProcessStatus, process_unknown, ready, ended, canceled, paused, results, CensusOrigin,
  off_chain_tree, off_chain_tree_weighted, off_chain_ca, off_chain_ca_v2, other_origin, Error,
  Result, ok, err, Exec, State, ⊤, pure, raise, gets, lift, or_raise, raise_if, when, modify, ◌>>=◌,
  ◌>>◌, process_not_found, process_exists, timestamp_not_found, same_status, invalid_transition,
  not_interruptible, unknown_status, zero_duration, same_duration, invalid_status, elapsed_duration,
  shortened_duration, same_metadata, still_alive, not_dynamic_census, origin_not_updatable,
  same_census_root, missing_census_uri, panicked,
}

-- `getProcess` on the uncommitted view.
unfoldable pub get_process : Bytes → Exec Process
get_process pid = do found ← gets (λ s. lookup pid s.processes); or_raise found process_not_found

-- `State.Timestamp(false)`
unfoldable pub get_timestamp : Exec ℕ
get_timestamp = do found ← gets (λ s. s.timestamp); or_raise found timestamp_not_found

unfoldable pub insert_new : Bytes → Process → Option Process → Exec ⊤
insert_new pid p (some _) = raise process_exists
insert_new pid p none =
    modify (λ s. record s { processes = insert pid p s.processes; votes = insert pid [] s.votes })

-- A new process comes with an empty tree of votes.
unfoldable pub add_process : Process → Exec ⊤
unfolding insert_new
add_process p = do
  found ← gets (λ s. lookup p.process_id s.processes)
  insert_new p.process_id p found

unfoldable pub set_start_block : Bytes → ℕ → Exec ⊤
set_start_block pid block =
    modify (λ s. record s { start_blocks = insert pid block s.start_blocks })

unfoldable pub delete_start_block : Bytes → Exec ⊤
delete_start_block pid = modify (λ s. record s { start_blocks = erase pid s.start_blocks })

-- The registry follows the status of the process that is written.
unfoldable pub register_start_block : Process → ProcessStatus → Exec ⊤
unfolding set_start_block delete_start_block
register_start_block p ready = set_start_block p.process_id p.start_block
register_start_block p paused = do
  height ← gets (λ s. s.current_height)
  set_start_block p.process_id height
register_start_block p ended = delete_start_block p.process_id
register_start_block p _ = pure tt

abbrev pub process_id_size : ℕ
process_id_size = 32

-- `UpdateProcess`
unfoldable pub update_process : Process → Bytes → Exec ⊤
unfolding get_process
update_process p pid = do
  raise_if (not (length p.process_id == process_id_size)) process_not_found
  register_start_block p p.status
  get_process pid
  modify (λ s. record s { processes = insert pid p s.processes })

unfoldable pub same : ProcessStatus → ProcessStatus → Bool
same process_unknown process_unknown = true
same ready ready = true
same ended ended = true
same canceled canceled = true
same paused paused = true
same results results = true
same _ _ = false

-- The end of a process by its clock, in 32 bits.
abbrev pub end_time : Process → ℕ
end_time p = add32 p.start_time p.duration

-- The switch of `SetProcessStatus` on the new status.
unfoldable pub check_transition : Process → ℕ → ProcessStatus → Result ⊤
unfolding same
check_transition p now ready = if not (same p.status paused) then err invalid_transition else ok tt
check_transition p now paused =
    if not (same p.status ready)
    then err invalid_transition
    else if not p.mode.interruptible
    then err not_interruptible
    else ok tt
check_transition p now ended =
    if not (same p.status ready) && not (same p.status paused)
    then err invalid_transition
    else if not p.mode.interruptible && ltb now (end_time p)
    then err not_interruptible
    else ok tt
check_transition p now canceled =
    if same p.status ended || same p.status results
    then err invalid_transition
    else if not (same p.status paused) && not p.mode.interruptible
    then err not_interruptible
    else ok tt
check_transition p now results = if not (same p.status ended) then err invalid_transition else ok tt
check_transition p now process_unknown = err unknown_status

unfoldable pub set_process_status : Bytes → ProcessStatus → Bool → Exec ⊤
unfolding get_process get_timestamp
set_process_status pid new_status commit = do
  p ← get_process pid
  now ← get_timestamp
  raise_if (same p.status new_status) same_status
  lift (check_transition p now new_status)
  when commit (update_process (record p { status = new_status }) p.process_id)

-- READY or PAUSED
unfoldable pub is_open : ProcessStatus → Bool
unfolding same
is_open status = same status ready || same status paused

unfoldable pub set_process_duration : Bytes → ℕ → Bool → Exec ⊤
unfolding get_process get_timestamp
set_process_duration pid new_duration commit = do
  p ← get_process pid
  now ← get_timestamp
  raise_if (new_duration == 0) zero_duration
  raise_if (new_duration == p.duration) same_duration
  raise_if (not (is_open p.status)) invalid_status
  raise_if (leb (add32 p.start_time new_duration) now) elapsed_duration
  raise_if (not p.mode.interruptible && ltb new_duration p.duration) shortened_duration
  when commit (update_process (record p { duration = new_duration }) p.process_id)

-- `GetMetadata`, `GetCensusURI`: the text, or the empty text for nil.
abbrev pub text_or_empty : Option Bytes → Bytes
text_or_empty none = []
text_or_empty (some b) = b

unfoldable pub set_process_metadata : Bytes → Bytes → Bytes → Bool → Exec ⊤
unfolding get_process
set_process_metadata pid uri hash commit = do
  p ← get_process pid
  raise_if (not (is_open p.status)) invalid_status
  raise_if (bytes_equal uri (text_or_empty p.metadata) && bytes_equal hash p.metadata_hash)
      same_metadata
  when commit (update_process (record p { metadata = some uri; metadata_hash = hash }) p.process_id)

unfoldable pub set_process_results : Bytes → List (List ℕ) → Exec ⊤
unfolding get_process
set_process_results pid result = do
  p ← get_process pid
  raise_if (not (same p.status ended) && not (same p.status ready)) invalid_status
  height ← gets (λ s. s.current_height)
  raise_if (same p.status ready && ltb height (add32 p.start_block p.block_count)) still_alive
  update_process (record p { process_results = some result; status = results }) p.process_id

pub record CensusProperties : Type 0 where
  pub allow_census_update : Bool
  pub needs_download : Bool
  pub needs_index_slot : Bool
  pub needs_uri : Bool
  pub weighted_support : Bool

-- The table `CensusOrigins`; an origin that it lacks has no property.
unfoldable pub census_properties : CensusOrigin → CensusProperties
census_properties off_chain_tree = record {
  allow_census_update = true;
  needs_download = true;
  needs_index_slot = false;
  needs_uri = true;
  weighted_support = false;
}
census_properties off_chain_tree_weighted = record {
  allow_census_update = true;
  needs_download = true;
  needs_index_slot = false;
  needs_uri = true;
  weighted_support = true;
}
census_properties off_chain_ca = record {
  allow_census_update = true;
  needs_download = false;
  needs_index_slot = false;
  needs_uri = true;
  weighted_support = true;
}
census_properties off_chain_ca_v2 = record {
  allow_census_update = true;
  needs_download = false;
  needs_index_slot = false;
  needs_uri = true;
  weighted_support = true;
}
census_properties (other_origin n) = record {
  allow_census_update = false;
  needs_download = false;
  needs_index_slot = false;
  needs_uri = false;
  weighted_support = false;
}

uri_changes : Option Bytes → Bytes → Result Bool
uri_changes none uri = err panicked
uri_changes (some old) uri = ok (not (bytes_equal uri old))

root_changes : Process → Option Bytes → Bool
root_changes p none = false
root_changes p (some root) = not (bytes_equal p.census_root root)

-- Whether the call asks for another root or URI. A URI is compared with that of the process through
-- its pointer, which may be nil.
unfoldable pub census_changes : Process → Option Bytes → Bytes → Result Bool
unfolding uri_changes root_changes
census_changes p root uri =
    if root_changes p root
    then ok true
    else if length uri == 0
    then ok false
    else uri_changes p.census_uri uri

root_or : Bytes → Option Bytes → Bytes
root_or old none = old
root_or old (some root) = root

-- The process with what the call gives put in place.
unfoldable pub with_census : Process → Option Bytes → Bytes → ℕ → Process
unfolding root_or
with_census p root uri size = record p {
  census_root = root_or p.census_root root;
  census_uri = if length uri == 0 then p.census_uri else some uri;
  max_census_size = if ltb 0 size then size else p.max_census_size;
}

unfoldable pub set_process_census : Bytes → Option Bytes → Bytes → ℕ → Bool → Exec ⊤
unfolding get_process
set_process_census pid root uri size commit = do
  p ← get_process pid
  changing ← lift (census_changes p root uri)
  raise_if (changing && not p.mode.dynamic_census) not_dynamic_census
  raise_if (changing && not (census_properties p.census_origin).allow_census_update)
      origin_not_updatable
  raise_if (not (is_open p.status)) invalid_status
  raise_if (size == 0 && bytes_equal (text_or_empty root) p.census_root) same_census_root
  raise_if (size == 0 && ((census_properties p.census_origin).needs_uri && length uri == 0))
      missing_census_uri
  when commit (update_process (with_census p root uri size) p.process_id)

min_of : ℕ → Dict ℕ → ℕ
min_of best [] = best
min_of best ((_, block) ∷ rest) = min_of (if ltb block best then block else best) rest

-- The least start block of the registry, or `from_block`.
unfoldable pub min_start_block : ℕ → State → ℕ
unfolding min_of
min_start_block from_block s = min_of from_block s.start_blocks

max_of : Dict Process → ℕ → Dict ℕ → ℕ
max_of processes best [] = best
max_of processes best ((pid, _) ∷ rest) = elim (lookup pid processes) [
  | none ↦ best
  | some p ↦ max_of processes (max best (add32 p.start_block p.block_count)) rest
]

-- The greatest end block of the processes of the registry; a process that is not found ends the
-- iteration.
unfoldable pub max_end_block : ℕ → State → ℕ
unfolding max_of
max_end_block from_block s = max_of s.processes from_block s.start_blocks
