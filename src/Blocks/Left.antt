-- ===== src/Blocks/Left.antt =====
-- What a run has not given back at its end.
use serial.Base.{
  ℕ, ◌+◌, ◌≡◌, refl, Bool, true, false, ◌&&◌, Option, none, List, [], ◌∷◌, arith, length,
  if◌then◌else◌, Bool-cases, inl, inr,
}
use serial.Text.{Text, codes}
use serial.Mqtt.{Mosquitto, Mqtt, mqtt_connect}
use serial.Listener.{Attempt, Listener, start, startftdi}
use serial.CommandLine.{
  Pointer, allocated, argument, null, Options, Outcome, usage, run, main, may_free,
}
use serial.Run.{Environment, started}
use serial.Ledger.{Ledger, malloc}
use serial.Ledger.Held.{
  Returns, Returns-weaken, bind, bind_fault, fault_bind, Owns, recount, free-owned, Owns-forget,
  Owns-swap,
}
use serial.Blocks.{
  mqtt_send_blocks, init_read_data_blocks, free_pointer, attempt_blocks, listen_blocks, run_blocks,
  outcome_blocks, main_blocks,
}
use serial.Blocks.Arrays.{arrays, init_read_data_blocks-Owns, clean_read_data_blocks-Owns}
use serial.Blocks.Kept.{
  Loses, Loses-nothing, Loses-then, mqtt_send_blocks-Loses, feed_blocks-Loses, lost_by,
  readftdi_blocks-Loses,
}

-- A pointer that a NULL has replaced leaves its block behind.
abbrev pub left_by : Pointer → ℕ
left_by (allocated t) = 0
left_by (argument t) = 1
left_by null = 1

free_pointer-Owns :
    (k : Pointer) (p : ℕ) (ps : List ℕ) (n : ℕ) (h : Ledger)
    → may_free k ≡ true
    → Owns (p ∷ ps) (n + 1) h
    → Returns (λ u. Owns ps (n + left_by k)) (free_pointer k p h)
free_pointer-Owns (allocated t) p ps n h e o =
    free-owned p ps (n + 0) h (recount (p ∷ ps) (n + 1) (n + 0 + 1) h o (omega arith))
free_pointer-Owns (argument t) p ps n h e o = ground arith
free_pointer-Owns null p ps n h e o = Owns-forget p ps (n + 1) h o

free_pointer_fault :
    (k : Pointer) (p : ℕ) (h : Ledger) → may_free k ≡ false → free_pointer k p h ≡ none
free_pointer_fault (allocated t) p h e = ground arith
free_pointer_fault (argument t) p h e = refl
free_pointer_fault null p h e = ground arith

-- The blocks that the attempts lose.
unfoldable pub lost_by_all : Bool → List Attempt → ℕ
lost_by_all ftdidevice [] = 0
lost_by_all ftdidevice (a ∷ later) =
    (if ftdidevice then lost_by a else 0) + lost_by_all ftdidevice later

-- Every free() is of a block that is held, and `left` blocks are at the end; or one of them is not.
abbrev pub Ends : Bool → ℕ → Option (Unit {0} × Ledger) → Type 0
Ends true left r = Returns (λ u h. length h.live ≡ left) r
Ends false left r = r ≡ none

abbrev pub frees_well : Outcome → Bool
frees_well usage = true
frees_well (run o) = may_free o.portname && may_free o.destinationportname

abbrev pub left_at_end : Environment → Outcome → ℕ
left_at_end world usage = 3
left_at_end world (run o) =
    56 + lost_by_all o.ftdi_mode world.attempts + left_by o.portname + left_by o.destinationportname

-- Before anything is acquired.
abbrev pub fresh : Ledger
fresh = record { next = 0; live = [] }

module _ (lib : Mosquitto) where
  attempt_blocks-Loses :
      (ftdidevice sendmode outputdata : Bool) (l : Listener lib) (a : Attempt)
      → Loses
          (if ftdidevice then lost_by a else 0)
          (attempt_blocks lib ftdidevice sendmode outputdata l a)
  unfolding attempt_blocks
  attempt_blocks-Loses true sendmode outputdata l a = readftdi_blocks-Loses lib outputdata _ a
  attempt_blocks-Loses false sendmode outputdata l a = feed_blocks-Loses lib l.program _

  listen_blocks-Loses :
      (ftdidevice sendmode outputdata : Bool) (l : Listener lib) (later : List Attempt)
      → Loses
          (lost_by_all ftdidevice later)
          (listen_blocks lib ftdidevice sendmode outputdata l later)
  unfolding listen_blocks lost_by_all
  listen_blocks-Loses ftdidevice sendmode outputdata l [] = Loses-nothing
  listen_blocks-Loses ftdidevice sendmode outputdata l (a ∷ later) =
      Loses-then _ _ _ _ (attempt_blocks-Loses ftdidevice sendmode outputdata l a) (
        listen_blocks-Loses ftdidevice sendmode outputdata
          (if ftdidevice then startftdi lib outputdata l a else start lib sendmode l a) later)

  run_blocks-Loses :
      (world : Environment) (mqtt : Mqtt lib) (o : Options)
      → Loses (55 + lost_by_all o.ftdi_mode world.attempts) (run_blocks lib world mqtt o)
  unfolding run_blocks
  run_blocks-Loses world mqtt o ps n h held =
      let k = lost_by_all o.ftdi_mode world.attempts in
      let Q : Unit {0} → Ledger → Type 0 = λ u. Owns ps (n + (55 + k)) in
      bind (λ g. Owns (arrays g ps) (n + 59)) Q init_read_data_blocks _ h
        (init_read_data_blocks-Owns ps n h held)
        (λ g t one.
          bind (λ _. Owns (arrays g ps) (n + 59 + 0)) Q (mqtt_send_blocks lib _ _) _ t
            (mqtt_send_blocks-Loses lib (mqtt_connect lib world.pid mqtt).0
              (codes "utils init (mqtt rawdata)") (arrays g ps) (n + 59) t one)
            (λ _ u two.
              bind (λ _. Owns (arrays g ps) (n + 59 + 0 + k)) Q (listen_blocks lib _ _ _ _ _) _ u
                (listen_blocks-Loses o.ftdi_mode o.send_mode o.lograwdata (started lib world mqtt)
                  world.attempts (arrays g ps) (n + 59 + 0) u two)
                (λ _ v kept. clean_read_data_blocks-Owns g ps (n + (55 + k)) v (
                  recount (arrays g ps) (n + 59 + 0 + k) (n + (55 + k) + 4) v kept (omega arith)))))

  outcome_blocks-Ends :
      (world : Environment) (mqtt : Mqtt lib) (out : Outcome) (port destination : ℕ) (h : Ledger)
      → Owns (destination ∷ port ∷ []) 3 h
      → Ends
          (frees_well out)
          (left_at_end world out)
          (outcome_blocks lib world mqtt out port destination h)
  unfolding outcome_blocks
  outcome_blocks-Ends world mqtt usage port destination h o = o.counted
  outcome_blocks-Ends world mqtt (run options) port destination h o =
      let k = 55 + lost_by_all options.ftdi_mode world.attempts in
      let m = 1 + k + left_by options.portname in
      elim (Bool-cases (may_free options.portname)) [
        | inl e ↦ elim (Bool-cases (may_free options.destinationportname)) [
          | inl f ↦
              rw (e, f)
                (bind (λ _. Owns (destination ∷ port ∷ []) (3 + k)) _
                  (run_blocks lib world mqtt options) _ h
                  (run_blocks-Loses world mqtt options (destination ∷ port ∷ []) 3 h o)
                  (λ _ t one.
                    bind (λ _. Owns (destination ∷ []) (2 + k + left_by options.portname)) _
                      (free_pointer options.portname port) _ t
                      (free_pointer-Owns options.portname port (destination ∷ []) (2 + k) t e (
                        recount (port ∷ destination ∷ []) (3 + k) (2 + k + 1) t
                          (Owns-swap destination port [] (3 + k) t one) (omega arith)))
                      (λ _ u two.
                        Returns-weaken (λ _. Owns [] (m + left_by options.destinationportname)) _
                          (free_pointer options.destinationportname destination u)
                          (free_pointer-Owns options.destinationportname destination [] m u f (
                            recount (destination ∷ []) (2 + k + left_by options.portname) (m + 1) u
                              two (omega arith)))
                          (λ _ v three. omega (arith, three.counted)))))
          | inr f ↦
              rw (e, f)
                (bind_fault (run_blocks lib world mqtt options) _ h (λ _ t.
                  bind_fault (free_pointer options.portname port) _ t
                    (λ _ u. free_pointer_fault options.destinationportname destination u f)))
        ]
        | inr e ↦ rw e (
            bind_fault (run_blocks lib world mqtt options) _ h (λ _ t.
              fault_bind (free_pointer options.portname port) _ t
                (free_pointer_fault options.portname port t e)))
      ]

  -- With a malloc that does not fail, from any command line, and whatever the attempts and the
  -- broker bring: a run frees nothing but blocks that it holds exactly if it prints the usage or
  -- neither port name is an element of argv at the end. It then leaves 3 blocks with the usage, and
  -- otherwise 56, one more for each port name that is NULL, and two more for each attempt at an
  -- FTDI device of which a call fails.
  pub main_blocks-Ends :
      (world : Environment) (mqtt : Mqtt lib) (args : List Text)
      → let out = main world.basic_portname world.destination_portname args in
        Ends (frees_well out) (left_at_end world out) (main_blocks lib world mqtt args fresh)
  unfolding main_blocks malloc
  main_blocks-Ends world mqtt args =
      outcome_blocks-Ends world mqtt (main world.basic_portname world.destination_portname args) 0 1
        _
        (record {
          holds = (refl, (refl, tt));
          old = (omega arith, (omega arith, tt));
          counted = refl;
        })
