-- ===== src/Raft/Cluster/Moves.antt =====
-- src/raft/core.rs: a step of one node keeps the invariant of the cluster.
use raft_distributed_log_rs.Prelude.{
  List, [], ap, arith, inl, inr, length, refl, some, sym, true, u64_mod, ℕ, ◌*◌, ◌+◌, ◌<◌, ◌∙◌, ◌∷◌,
  ◌≡◌, ◌≢◌, ◌⊎◌,
}
use raft_distributed_log_rs.Raft.Cluster.{
  Ballot, Cluster, IsCast, IsFollowed, IsHonest, after, enter, place-elim, saved,
}
use raft_distributed_log_rs.Raft.Cluster.Counting.{
  counting, counts, gives_up, goes_on, leading, runs, saved_state, vote_kept,
}
use raft_distributed_log_rs.Raft.Cluster.Invariant.{
  AllCast, AllCast-enter, Inv, IsCast-cases, IsCast-enter, IsCast-new, NodeInv, Voted,
}
use raft_distributed_log_rs.Raft.Core.{handle}
use raft_distributed_log_rs.Raft.Core.Base.{hard_state}
use raft_distributed_log_rs.Raft.Core.Heartbeats.{observe}
use raft_distributed_log_rs.Raft.Core.Replication.{progress_to}
use raft_distributed_log_rs.Raft.Elections.{handle-ElectionInv, to_persist}
use raft_distributed_log_rs.Raft.Peers.{contains_key, member}
use raft_distributed_log_rs.Raft.Peers.Laws.{contains_key-modify, length-modify}
use raft_distributed_log_rs.Raft.Terms.{handle-HasVoted}
use raft_distributed_log_rs.Raft.Types.{
  Event, NodeId, Raft, ReceivedVoteResponse, State, append_entries_response, election_timeout,
  follower, heartbeat_response, leader, local_entries_appended, vote_response,
}
use raft_distributed_log_rs.Raft.Votes.{cast, cast_HasVoted}

handle-id : (r : Raft) (e : Event) → (handle r e).0.id ≡ r.id
unfolding handle
handle-id r election_timeout = ground arith
handle-id r _ = ground arith

handle-contains_key :
    (r : Raft) (e : Event) (j : NodeId)
    → contains_key j (handle r e).0.voters ≡ contains_key j r.voters
unfolding handle
handle-contains_key r election_timeout j = ground arith
handle-contains_key r (heartbeat_response v) j =
    ground (arith, contains_key-modify j v.from (observe r.last_log_index v.response) r.voters)
handle-contains_key r (append_entries_response v) j =
    ground
      (arith, contains_key-modify j v.from (λ _. progress_to v.response.last_log_index) r.voters)
handle-contains_key r (local_entries_appended x) j =
    ground (arith, contains_key-modify j r.id (λ _. progress_to x.index) r.voters)
handle-contains_key r _ j = ground arith

handle-length : (r : Raft) (e : Event) → length (handle r e).0.voters ≡ length r.voters
unfolding handle
handle-length r election_timeout = ground arith
handle-length r (heartbeat_response v) =
    ground (arith, length-modify v.from (observe r.last_log_index v.response) r.voters)
handle-length r (append_entries_response v) =
    ground (arith, length-modify v.from (λ _. progress_to v.response.last_log_index) r.voters)
handle-length r (local_entries_appended x) =
    ground (arith, length-modify r.id (λ _. progress_to x.index) r.voters)
handle-length r _ = ground arith

AllCast-one :
    (vs : List NodeId) (i k : NodeId) (t : ℕ) (l : List Ballot)
    → vs ≡ i ∷ []
    → i ≡ k
    → IsCast k t i l
    → AllCast vs t k l
AllCast-one vs i k t l votes same h = rw (votes, same) (rw same at h, tt)

AllCast-same :
    (vs ws : List NodeId) (t u : ℕ) (k : NodeId) (l : List Ballot)
    → ws ≡ vs
    → u ≡ t
    → AllCast vs t k l
    → AllCast ws u k l
AllCast-same vs ws t u k l e f h = rw (e, f) h

AllCast-more :
    (vs ws : List NodeId) (v : NodeId) (t u : ℕ) (k : NodeId) (l : List Ballot)
    → ws ≡ v ∷ vs
    → u ≡ t
    → IsCast v t k l
    → AllCast vs t k l
    → AllCast ws u k l
AllCast-more vs ws v t u k l e f one h = rw (e, f) (one, h)

module _ (members : List NodeId) (s : Cluster) (k : NodeId) (e : Event)
    (inside : member k members ≡ true) (room : (s.node k).current_term + 1 < u64_mod)
    (honest : IsHonest s k e) (followed : IsFollowed (s.node k) e) (inv : Inv members s) where
  r : Raft
  r = s.node k

  r' : Raft
  r' = (handle (s.node k) e).0

  d' : State
  d' = saved (s.disk k) (to_persist (handle (s.node k) e).1)

  ballots' : List Ballot
  ballots' = enter k (cast (handle (s.node k) e).1) s.ballots

  n : NodeInv members k (s.node k) (s.disk k) s.ballots
  n = inv.nodes k inside

  backed : (r'.role ≡ follower) ⊎ AllCast r'.granted_votes r'.current_term k ballots'
  unfolding r' ballots'
  backed = elim (counting (s.node k) e followed) [
    | gives_up down ↦ inl down
    | runs votes voted ↦ inr (
        AllCast-one _ (s.node k).id k _ _ votes n.identity (
          IsCast-new k (record { term = (handle (s.node k) e).0.current_term; for = (s.node k).id })
            _ s.ballots voted))
    | goes_on votes term up ↦ elim n.backed [
      | inl down ↦ absurd (up down)
      | inr all ↦ inr (
          AllCast-same (s.node k).granted_votes _ (s.node k).current_term _ k _ votes term
            (AllCast-enter (s.node k).granted_votes (s.node k).current_term k k _ s.ballots all))
    ]
    | counts v response granted current up votes term ↦ elim n.backed [
      | inl down ↦ absurd (up down)
      | inr all ↦ inr (
          AllCast-more (s.node k).granted_votes _ v.from (s.node k).current_term _ k _ votes term
            (IsCast-enter v.from (s.node k).current_term k k _ s.ballots
              (counted v response granted current))
            (AllCast-enter (s.node k).granted_votes (s.node k).current_term k k _ s.ballots all))
    ]
  ]
    where
      counted :
          (v : ReceivedVoteResponse)
          → e ≡ vote_response v
          → v.response.vote_granted ≡ true
          → v.response.term ≡ (s.node k).current_term
          → IsCast v.from (s.node k).current_term k s.ballots
      counted v response granted current = elim (rw response at honest) [
        | inl refused ↦ cc
        | inr h ↦ rw current at h
      ]

  majority : r'.role ≡ leader → length r'.voters < 2 * length r'.granted_votes
  unfolding r'
  majority h = elim (leading (s.node k) e h) [
    | inl (was, votes) ↦ omega (arith, handle-length (s.node k) e, ap length votes, n.majority was)
    | inr won ↦ omega (arith, handle-length (s.node k) e, won)
  ]

  vote_saved : (c : NodeId) → r'.voted_for ≡ some c → d' ≡ hard_state r'
  unfolding r' d'
  vote_saved c h = elim (vote_kept (s.node k) e c followed h) [
    | inl written ↦ rw written refl
    | inr (unwritten, same) ↦
        rw unwritten (n.vote_saved c (sym (ap (λ (x : State). x.voted_for) same) ∙ h) ∙ sym same)
  ]

  kept : (t : ℕ) (c : NodeId) → IsCast k t c ballots' → Voted (hard_state r') t c × Voted d' t c
  unfolding r' d' ballots'
  kept t c h = elim (IsCast-cases k t c k (cast (handle (s.node k) e).1) s.ballots h) [
    | inl old ↦
        let still : Voted (hard_state (handle (s.node k) e).0) t c =
          handle-HasVoted (s.node k) e room (n.kept t c old).0 in
        (
          still,
          elim (saved_state (s.node k) e) [
            | inl unwritten ↦ rw unwritten (n.kept t c old).1
            | inr written ↦ rw written still
          ],
        )
    | inr (same, voted) ↦
        let now = cast_HasVoted (s.node k) e (record { term = t; for = c }) voted in
        (inr now, rw (vote_saved c now.1) (inr now))
  ]

  mover : NodeInv members k r' d' ballots'
  unfolding r'
  mover = record {
    identity = handle-id (s.node k) e ∙ n.identity;
    same_keys = λ j. handle-contains_key (s.node k) e j ∙ n.same_keys j;
    same_size = handle-length (s.node k) e ∙ n.same_size;
    election = handle-ElectionInv (s.node k) e n.election;
    backed = backed;
    majority = majority;
    vote_saved = vote_saved;
    kept = kept;
  }

  -- Another node is as it was, under the new list of ballots.
  bystander :
      (j : NodeId)
      → member j members ≡ true
      → k ≢ j
      → NodeInv members j (s.node j) (s.disk j) ballots'
  unfolding ballots'
  bystander j in_j ne =
      let m = inv.nodes j in_j in
      record {
        identity = m.identity;
        same_keys = m.same_keys;
        same_size = m.same_size;
        election = m.election;
        backed = elim m.backed [
          | inl down ↦ inl down
          | inr all ↦ inr (AllCast-enter _ _ j k _ s.ballots all)
        ];
        majority = m.majority;
        vote_saved = m.vote_saved;
        kept = λ t c h. elim (IsCast-cases j t c k _ s.ballots h) [
          | inl old ↦ m.kept t c old
          | inr (same, voted) ↦ absurd (ne same)
        ];
      }

  -- A vote cast now agrees with an older one of the same node in the same term.
  agrees :
      (t : ℕ) (a b : NodeId)
      → IsCast k t a s.ballots
      → cast (handle (s.node k) e).1 ≡ some (record { term = t; for = b })
      → a ≡ b
  agrees t a b old voted =
      let before : Voted (hard_state (handle (s.node k) e).0) t a =
        handle-HasVoted (s.node k) e room (n.kept t a old).0 in
      let now = cast_HasVoted (s.node k) e (record { term = t; for = b }) voted in
      ground (arith, now, before)

  one_each :
      (v : NodeId) (t : ℕ) (a b : NodeId) → IsCast v t a ballots' → IsCast v t b ballots' → a ≡ b
  unfolding ballots'
  one_each v t a b in_a in_b = elim (IsCast-cases v t a k _ s.ballots in_a) [
    | inl old_a ↦ elim (IsCast-cases v t b k _ s.ballots in_b) [
      | inl old_b ↦ inv.one_each v t a b old_a old_b
      | inr (same, voted) ↦ agrees t a b (rw same old_a) voted
    ]
    | inr (same, voted) ↦ elim (IsCast-cases v t b k _ s.ballots in_b) [
      | inl old_b ↦ sym (agrees t b a (rw same old_b) voted)
      | inr (same', voted') ↦ cc
    ]
  ]

  by_members : (v : NodeId) (t : ℕ) (c : NodeId) → IsCast v t c ballots' → member v members ≡ true
  unfolding ballots'
  by_members v t c h = elim (IsCast-cases v t c k _ s.ballots h) [
    | inl old ↦ inv.by_members v t c old
    | inr (same, voted) ↦ rw same at inside
  ]

  pub takes-Inv : Inv members (after s k e)
  unfolding r' d' ballots'
  takes-Inv = record {
    nodes = λ j in_j.
        place-elim
          (λ i x d. NodeInv members i x d (enter k (cast (handle (s.node k) e).1) s.ballots)) k r'
          s.node d' s.disk j mover (bystander j in_j);
    one_each = one_each;
    by_members = by_members;
  }
