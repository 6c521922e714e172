-- ===== src/Pump/Buffered.antt =====
-- src/stems/pump.ts: the invariant of one source, its windows, its read and what it has played.
use engine_web_adapter.Prelude.{
  ℕ, ◌+◌, ◌*◌, ◌≤◌, ◌≡◌, sym, subst, ◌⊎◌, inl, inr, Bool, false, ◌==◌, Option, none, some, List, [],
  ◌∷◌, ◌++◌, arith, length, subarray,
}
use engine_web_adapter.Pump.{RingOps, Commit, Window, Flight, Source, frame_bytes, window_end}
use engine_web_adapter.Pump.Canonical.{canonical_planes}

pub record IsShaped (channels bit_depth : ℕ) : Type 0 where
  pub some_channel : 1 ≤ channels
  pub depth : (bit_depth ≡ 16) ⊎ (bit_depth ≡ 24)

module _ {R : Type 0} (ops : RingOps R) (pcm : ℕ → List ℕ) where
  -- Commits of one generation that follow one another from frame `start` to frame `stop`, each with
  -- the planes of the canonical PCM, and with the end mark just where the source ends.
  abbrev pub Played : Source R → ℕ → ℕ → ℕ → List Commit → Type 0
  Played s generation start stop [] = start ≡ stop
  Played s generation start stop (c ∷ cs) =
      (c.generation ≡ generation)
      × (c.start_frame ≡ start)
      × (c.planes ≡ canonical_planes s.channels s.bit_depth (pcm s.identity) start c.frames)
      × (c.end_of_region ≡ (start + c.frames == s.frames))
      × Played s generation (start + c.frames) stop cs

  pub Played-snoc :
      (s : Source R) (generation stop : ℕ) (c : Commit) (cs : List Commit) (start : ℕ)
      → Played s generation start stop cs
      → Played s generation stop (stop + c.frames) (c ∷ [])
      → Played s generation start (stop + c.frames) (cs ++ (c ∷ []))
  Played-snoc s generation stop c [] start p q =
      subst (λ n. Played s generation n (stop + c.frames) (c ∷ [])) (sym p) q
  Played-snoc s generation stop c (d ∷ cs) start p q =
      (p.0, p.1, p.2, p.3, Played-snoc s generation stop c cs (start + d.frames) p.4 q)

  -- What the ring was given since it was engaged or last sought.
  pub record IsPlayed (generation : ℕ) (s : Source R) : Type 0 where
    pub shaped : IsShaped s.channels s.bit_depth
    pub within : s.cursor ≤ s.frames
    pub ended : s.finished ≡ (s.cursor == s.frames)
    pub played : Played s generation s.base s.cursor s.log

  -- A window of whole frames of the canonical PCM.
  pub record IsCut (s : Source R) (w : Window) : Type 0 where
    pub size : ℕ
    pub cut :
        w.bytes
        ≡ subarray
            (pcm s.identity)
            (w.start * frame_bytes ops s)
            (w.start * frame_bytes ops s + size * frame_bytes ops s)
    pub whole : length w.bytes ≡ size * frame_bytes ops s

  abbrev pub NextFits : Source R → Window → Option Window → Type 0
  NextFits s w none = Unit {0}
  NextFits s w (some n) = IsCut s n × (n.start ≡ window_end ops s w)

  -- The cursor stands in the current window, and the next one follows it.
  abbrev pub WindowsFit : Source R → Option Window → Option Window → Type 0
  WindowsFit s none next = next ≡ none
  WindowsFit s (some w) next =
      IsCut s w × (w.start ≤ s.cursor) × (s.cursor ≤ window_end ops s w) × NextFits s w next

  -- Where the bytes of a read will belong.
  abbrev pub Anchored : Source R → Option Window → ℕ → Type 0
  Anchored s none start = start ≡ s.cursor
  Anchored s (some w) start = start ≡ window_end ops s w

  abbrev pub FlightFits : Source R → ℕ → Option Flight → Type 0
  FlightFits s generation none = Unit {0}
  FlightFits s generation (some f) =
      (f.generation ≤ generation)
      × (f.generation ≡ generation
          → (s.next ≡ none)
            × Anchored s s.window f.start
            × ((size : ℕ) × (f.count ≡ size * frame_bytes ops s)))

  pub record IsBuffered (generation : ℕ) (s : Source R) : Type 0 where
    pub windows : WindowsFit s s.window s.next
    pub flight : FlightFits s generation s.reading

  -- The buffers matter until the pump is closed.
  pub record IsSource (stopped : Bool) (generation : ℕ) (s : Source R) : Type 0 where
    pub plays : IsPlayed generation s
    pub buffers : stopped ≡ false → IsBuffered generation s

  pub width_pos : (s : Source R) → IsShaped s.channels s.bit_depth → 1 ≤ frame_bytes ops s
  width_pos s shape = elim (shape.depth) [
    | inl d ↦ grind (arith, d, shape.some_channel)
    | inr d ↦ grind (arith, d, shape.some_channel)
  ]

  pub end_lem :
      (s : Source R) (w : Window)
      → IsShaped s.channels s.bit_depth
      → (c : IsCut s w) → window_end ops s w ≡ w.start + c.size
  end_lem s w shape c = grind (arith, c.whole, width_pos s shape)
