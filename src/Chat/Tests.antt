-- ===== src/Chat/Tests.antt =====
-- The chat server with three clients, of which one sends nothing more.
use c_study.Base.{
  ℕ, ◌≡◌, refl, ap, ◌≤◌, ◌<◌, if◌then◌else◌, ◌||◌, ◌==◌, [], ◌∷◌, true, false, none, some, arith,
}
use c_study.Chat.Server.{
  Server, Round, failed, ready, returned, overrun, killed, running, accept_client, receive,
  send_loop, breaks, handle, visit, serve, start,
}
use c_study.Chat.Inbox.{inbox, said, heard}
use c_study.Chat.Handle.{IsPossible}
use c_study.Chat.Deliver.{Reach, here, next}
use c_study.Chat.Program.{Rounds, stay, go}

program : Unit {0}
unfolding accept_client send_loop breaks receive handle visit serve inbox said heard
program = tt

-- A client with this descriptor connects.
abbrev joins : ℕ → Round
joins c = record {
  reads = λ k. k == 3;
  accepted = some c;
  received = λ k. none;
  broken = λ k. false;
}

abbrev alone : Reach 8 3 (start 3)
alone = here

abbrev join_possible : (c : ℕ) → 1 ≤ c → c < 8 → IsPossible 8 (start 3) (joins c)
join_possible c l k = record {
  reads = λ m (e : (m == 3) ≡ true). e;
  accepts = λ e. (c, refl, l, k);
  unbroken = λ k. refl;
}

abbrev two : (s : Server) × Reach 8 3 s
unfolding program
two = (_, next here (join_possible 4 (omega arith) (omega arith)) refl)

abbrev crowd : (s : Server) × Reach 8 3 s
unfolding program two
crowd = (
  _,
  next {r = joins 5} two.1
      (record {
        reads = λ m (e : (m == 3) ≡ true). ap (λ q. q || m == 4) e;
        accepts = λ e. (5, refl, omega arith, omega arith);
        unbroken = λ k. refl;
      })
      refl,
)

-- Descriptor 4 says `h` and 5 has closed its side for writing.
abbrev talk : Round
talk = record {
  reads = λ k. k == 4 || k == 5;
  accepted = none;
  received = λ k. if k == 4 then some (b'h' ∷ []) else some [];
  broken = λ k. false;
}

talk_possible : IsPossible 8 crowd.0 talk
unfolding crowd
talk_possible = record {
  reads = λ m (e : talk.reads m ≡ true). ground arith;
  accepts = λ e. ground arith;
  unbroken = λ k. refl;
}

-- Descriptor 5 gets the message, 4 gets the empty one, and 5 stays in the set.
talk_runs :
    (t : Server) × (serve 8 (ready talk) crowd.0 ≡ running t)
    × (inbox 5 t.sent ≡ (b'h' ∷ []) ∷ [])
    × (inbox 4 t.sent ≡ [] ∷ [])
    × (t.master 5 ≡ true)
unfolding program crowd
talk_runs = (_, refl, refl, refl, refl)

-- With all descriptors of the set in use, the next client is put outside of it.
full_set : serve 8 (ready (joins 8)) (start 3) ≡ overrun
unfolding program
full_set = refl

failed_select : serve 8 failed (start 3) ≡ returned
unfolding program
failed_select = refl

abbrev five_possible : IsPossible 8 two.0 (joins 5)
unfolding two program
five_possible = record {
  reads = λ m (e : (m == 3) ≡ true). ap (λ q. q || m == 4) e;
  accepts = λ e. (5, refl, omega arith, omega arith);
  unbroken = λ k. refl;
}

abbrev joining : Rounds 8 (start 3) (joins 4 ∷ joins 5 ∷ []) crowd.0
unfolding program two crowd
joining = go (join_possible 4 (omega arith) (omega arith)) refl (go five_possible refl stay)

abbrev talking : (u : Server) × Rounds 8 crowd.0 (talk ∷ []) u
unfolding program crowd
talking = (_, go talk_possible refl stay)

-- If 5 is gone altogether, the message to it ends the server.
killed_runs : serve 8 (ready (record talk { broken = λ k. k == 5 })) crowd.0 ≡ killed
unfolding program crowd
killed_runs = refl
