-- ===== src/Consensus/Node.antt =====
-- internal/consensus/raft.go: the node itself. What hashicorp/raft, the file system and the network
-- return is an argument; an error is a value of `E`.
use Prim.Native.Char.{Char, code}
use job_manager_quorum.Common.{
  ℕ, ◌+◌, ◌-◌, ◌*◌, ◌^◌, ◌<◌, ◌≡◌, ◌≢◌, refl, if_neg, ◌∙◌, String, String-discrete, Bool, true,
  false, Option, none, some, List, [], ◌∷◌, ite, ltb, leb, ◌&&◌, arith, if◌then◌else◌,
}
use job_manager_quorum.Common.Numerals.{itoa, itoa_nonempty, digits_value, digits_value-itoa}
use job_manager_quorum.Common.Text.{is_space}

-- The steps of NewRaftNode that may fail, in their order.
pub data OpenError (E : Type 0) : Type 0 where
  create_data_dir resolve_addr create_transport create_snapshots create_raft : E → OpenError E
  existing_state : E → OpenError E

pub record Server : Type 0 where
  pub id : String
  pub address : String

-- A node, and the configuration that it gives to BootstrapCluster, if it does.
pub record RaftNode : Type 0 where
  pub node_id : String
  pub bootstrapped : Option (List Server)

-- What the steps return: an error or none, then whether there is a state, and the local address.
pub record Opening (E : Type 0) : Type 0 where
  pub mkdir : Option E
  pub resolve : Option E
  pub transport : Option E
  pub snapshots : Option E
  pub raft : Option E
  pub state_error : Option E
  pub has_state : Bool
  pub local_addr : String

pub data Opened (E : Type 0) : Type 0 where
  opened : RaftNode → Opened E
  failed : OpenError E → Opened E

pub data MembershipError (E : Type 0) : Type 0 where
  not_leader : String → MembershipError E  -- with the leader's address
  future_error : E → MembershipError E

module _ {E : Type 0} where
  abbrev checked : Option E → (E → OpenError E) → Opened E → Opened E
  checked none wrap rest = rest
  checked (some e) wrap rest = failed (wrap e)

  unfoldable pub new_raft_node : String → Opening E → Opened E
  new_raft_node node_id o = checked o.mkdir create_data_dir (
      checked o.resolve resolve_addr (
        checked o.transport create_transport (
          checked o.snapshots create_snapshots (
            checked o.raft create_raft (
              checked o.state_error existing_state (
                opened (record {
                  node_id = node_id;
                  bootstrapped =
                      if o.has_state
                      then none
                      else some (record { id = node_id; address = o.local_addr } ∷ []);
                })))))))

  abbrev as_future : Option E → Option (MembershipError E)
  as_future none = none
  as_future (some e) = some (future_error e)

  -- A call of AddVoter or RemoveServer of the library, by its future's error.
  unfoldable pub add_voter :
      Bool → String → (String → String → Option E) → String → String → Option (MembershipError E)
  add_voter is_leader leader_addr lib_add_voter id addr =
      if is_leader then as_future (lib_add_voter id addr) else some (not_leader leader_addr)

  unfoldable pub remove_server :
      Bool → String → (String → Option E) → String → Option (MembershipError E)
  remove_server is_leader leader_addr lib_remove_server id =
      if is_leader then as_future (lib_remove_server id) else some (not_leader leader_addr)

-- The states of the library's node.
pub data RaftState : Type 0 where
  follower candidate leader shutdown : RaftState

unfoldable pub is_leader : RaftState → Bool
is_leader leader = true
is_leader _ = false

abbrev is_digit : Char → Bool
is_digit c = leb b'0' (code c) && leb (code c) b'9'

-- The value of the digits that a text begins with, behind those that are read.
unfoldable pub leading_value : String → ℕ → ℕ
leading_value String.[] n = n
leading_value (String.◌∷◌ c s) n =
    let more = leading_value s (n * 10 + (code c - b'0')) in if is_digit c then more else n

-- `fmt.Sscanf(s, "%d", &term)`: spaces in front are skipped; a value beyond 64 bits or no digit is an
-- error, which leaves the term 0.
unfoldable pub parse_term : String → ℕ
unfolding leading_value is_space
parse_term String.[] = 0
parse_term (String.◌∷◌ c s) =
    let skipped = parse_term s in
    let value = leading_value (String.◌∷◌ c s) 0 in
    if is_space (code c) then skipped else (if ltb value (2 ^ 64) then value else 0)

-- `stats_term` is the entry "term" of the library's Stats, the empty text if there is none.
unfoldable pub leader_term : String → ℕ
unfolding parse_term
leader_term stats_term = ite (String-discrete stats_term "") 0 (parse_term stats_term)

leading_value-digits : (s : String) (m n : ℕ) → digits_value s m ≡ some n → leading_value s m ≡ n
unfolding leading_value digits_value
leading_value-digits String.[] m n h = ground (arith, h)
leading_value-digits (String.◌∷◌ c s) m n h =
    ground (arith, h, leading_value-digits s (m * 10 + (code c - b'0')) n)

dark_digit :
    (c : Char) (s : String) (m n : ℕ)
    → digits_value (String.◌∷◌ c s) m ≡ some n
    → is_space (code c) ≡ false
unfolding digits_value is_space
dark_digit c s m n h = ground (arith, h)

parse_term-digits :
    (s : String) (n : ℕ) → s ≢ "" → n < 2 ^ 64 → digits_value s 0 ≡ some n → parse_term s ≡ n
unfolding parse_term
parse_term-digits String.[] n given small h = absurd (given refl)
parse_term-digits (String.◌∷◌ c s) n given small h =
    rw (dark_digit c s 0 n h, leading_value-digits (String.◌∷◌ c s) 0 n h, parse_term)
      (ground (arith, small))

-- LeaderTerm reads back every term of 64 bits that the library's Stats writes in decimal.
pub leader_term-itoa : (n : ℕ) → n < 2 ^ 64 → leader_term (itoa n) ≡ n
unfolding leader_term
leader_term-itoa n small =
    if_neg (String-discrete (itoa n) "") (itoa_nonempty n) _ _
    ∙ parse_term-digits (itoa n) n (itoa_nonempty n) small (digits_value-itoa n)

reads : leader_term " 17x" ≡ 17
unfolding leader_term String-discrete
reads = refl

overflows : leader_term "18446744073709551616" ≡ 0
unfolding leader_term String-discrete
overflows = refl
