-- ===== src/Hls/Playlist.antt =====
-- What a player is told and served: the playlist and the segments by number.
use acestream_orchestrator.Prelude.{
  ℕ, zero, suc, ◌+◌, ◌-◌, ◌*◌, ◌≤◌, ◌<◌, ◌≡◌, refl, sym, ap, subst, ◌∙◌, false, Option, none, some,
  List, [], ◌∷◌, if◌then◌else◌, ltb, ◌==◌, drop, length, last_of-drop, length-drop, arith,
  Bool-cases, inl, inr,
}
use acestream_orchestrator.Hls.{
  HlsSegment, Segmenter, find_segment, segment, Line, target_duration, media_sequence, extm3u,
  version, to_ℕ, longest, whole_seconds, manifest_of, manifest,
}
use acestream_orchestrator.Hls.Window.{Numbered, IsLog}

-- The bytes of the segment at a place of a list.
abbrev pub bytes_at : List HlsSegment → ℕ → Option (List ℕ)
bytes_at [] i = none
bytes_at (seg ∷ segs) zero = some seg.bytes
bytes_at (seg ∷ segs) (suc i) = bytes_at segs i

bytes_at-next :
    (m : ℕ) (seg : HlsSegment) (segs : List HlsSegment)
    → 0 < m
    → bytes_at (seg ∷ segs) m ≡ bytes_at segs (m - 1)
bytes_at-next zero seg segs h = absurd (omega arith)
bytes_at-next (suc m) seg segs h = ap (bytes_at segs) {x = m} {y = suc m - 1} (omega arith)

find_segment-Numbered :
    (n seq : ℕ) (segs : List HlsSegment)
    → Numbered n segs
    → find_segment seq segs ≡ (if ltb seq n then none else bytes_at segs (seq - n))
unfolding find_segment
find_segment-Numbered n seq [] h = ground arith
find_segment-Numbered n seq (seg ∷ segs) h = elim (Bool-cases (seg.seq == seq)) [
  | inl here ↦ rw here (
      rw (not_below n (ground (arith, h.0)))
        (ap (bytes_at (seg ∷ segs)) {x = 0} {y = seq - n} (ground (arith, h.0))))
  | inr elsewhere ↦
      rw (elsewhere, find_segment-Numbered (n + 1) seq segs h.2)
        (elim (Bool-cases (ltb seq n)) [
          | inl below ↦ ground (arith, below)
          | inr above ↦
              rw (above, not_below (n + 1) (ground (arith, h.0)))
                (ap (bytes_at segs) {x = seq - (n + 1)} {y = seq - n - 1} (omega arith)
                  ∙ sym (bytes_at-next (seq - n) seg segs (ground (arith, h.0))))
        ])
]
  where
    not_below : (m : ℕ) → m ≤ seq → ltb seq m ≡ false
    not_below m l = ground arith

Numbered-drop :
    (n k : ℕ) (segs : List HlsSegment) → Numbered n segs → Numbered (n + k) (drop k segs)
Numbered-drop n zero segs h = subst (λ m. Numbered m segs) {x = n} {y = n + 0} (omega arith) h
Numbered-drop n (suc k) [] h = tt
Numbered-drop n (suc k) (seg ∷ segs) h =
    subst (λ m. Numbered m (drop k segs)) {x = n + 1 + k} {y = n + suc k} (omega arith)
      (Numbered-drop (n + 1) k segs h.2)

bytes_at-drop :
    (k i : ℕ) (segs : List HlsSegment) → bytes_at (drop k segs) i ≡ bytes_at segs (k + i)
bytes_at-drop zero i segs = ap (bytes_at segs) {x = i} {y = 0 + i} (omega arith)
bytes_at-drop (suc k) i [] = refl
bytes_at-drop (suc k) i (seg ∷ segs) =
    bytes_at-drop k i segs
    ∙ ap (bytes_at (seg ∷ segs)) {x = suc (k + i)} {y = suc k + i} (omega arith)

-- `Segment` serves a number exactly if it is one of the last `windowSize` segments pushed, and
-- then the bytes that were pushed under it.
pub segment_lem :
    (seq : ℕ) (log : List HlsSegment) (s : Segmenter)
    → IsLog log s
    → segment seq s ≡ (if ltb seq (length log - s.window_size) then none else bytes_at log seq)
unfolding segment
segment_lem seq log s h =
    let k = length log - s.window_size in
    ap (find_segment seq) (h.window ∙ last_of-drop s.window_size log)
    ∙ find_segment-Numbered k seq (drop k log) (
        subst (λ m. Numbered m (drop k log)) {x = 0 + k} {y = k} (omega arith)
          (Numbered-drop 0 k log h.numbered))
    ∙ elim (Bool-cases (ltb seq k)) [
      | inl below ↦ rw below refl
      | inr inside ↦ rw inside (
          bytes_at-drop k (seq - k) log
          ∙ ap (bytes_at log) {x = k + (seq - k)} {y = seq} (ground (arith, inside)))
    ]

-- Every segment of the list lasts no longer than so many ticks.
abbrev pub AllWithin : ℕ → List HlsSegment → Type 0
AllWithin t [] = Unit {0}
AllWithin t (seg ∷ segs) = (to_ℕ seg.duration ≤ t) × AllWithin t segs

AllWithin-le : (t u : ℕ) (segs : List HlsSegment) → t ≤ u → AllWithin t segs → AllWithin u segs
AllWithin-le t u [] h a = tt
AllWithin-le t u (seg ∷ segs) h a = (omega (arith, a.0), AllWithin-le t u segs h a.1)

longest-ge : (segs : List HlsSegment) (max : ℕ) → max ≤ longest segs max
unfolding longest
longest-ge [] max = omega arith
longest-ge (seg ∷ segs) max =
    ground (arith, longest-ge segs (if ltb max (to_ℕ seg.duration) then to_ℕ seg.duration else max))

longest-AllWithin : (segs : List HlsSegment) (max : ℕ) → AllWithin (longest segs max) segs
unfolding longest
longest-AllWithin [] max = tt
longest-AllWithin (seg ∷ segs) max = (
  ground (arith, longest-ge segs (if ltb max (to_ℕ seg.duration) then to_ℕ seg.duration else max)),
  longest-AllWithin segs (if ltb max (to_ℕ seg.duration) then to_ℕ seg.duration else max),
)

-- What a playlist announces: the target duration in seconds, and the number of its first segment.
abbrev pub announced : List Line → ℕ × ℕ
announced (extm3u ∷ version ∷ target_duration d ∷ media_sequence n ∷ lines) = (d, n)
announced lines = (0, 0)

manifest_of-AllWithin :
    (n : ℕ) (segs : List HlsSegment)
    → 0 < length segs
    → Numbered n segs
    → AllWithin ((announced (manifest_of segs)).0 * 90000) segs
      × ((announced (manifest_of segs)).1 ≡ n)
unfolding manifest_of
manifest_of-AllWithin n [] p h = absurd (omega arith)
manifest_of-AllWithin n (seg ∷ segs) p h = (
  AllWithin-le (longest (seg ∷ segs) 0) (whole_seconds (longest (seg ∷ segs) 0) * 90000)
      (seg ∷ segs) (omega arith) (longest-AllWithin (seg ∷ segs) 0),
  h.0,
)

-- The playlist of a segmenter that has a segment: no segment in it lasts longer than the target
-- duration that it announces, and its media sequence is the number of the first segment in the
-- window, which is the number of segments that have left it.
pub manifest-AllWithin :
    (log : List HlsSegment) (s : Segmenter)
    → IsLog log s
    → 0 < length log
    → 0 < s.window_size
    → AllWithin ((announced (manifest s)).0 * 90000) s.segs
      × ((announced (manifest s)).1 ≡ length log - s.window_size)
unfolding manifest
manifest-AllWithin log s h p w =
    let k = length log - s.window_size in
    let e : s.segs ≡ drop k log = h.window ∙ last_of-drop s.window_size log in
    rw e (
      manifest_of-AllWithin k (drop k log) (omega (arith, length-drop k log)) (
        subst (λ m. Numbered m (drop k log)) {x = 0 + k} {y = k} (omega arith)
          (Numbered-drop 0 k log h.numbered)))
