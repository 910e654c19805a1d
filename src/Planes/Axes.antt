-- ===== src/Planes/Axes.antt =====
-- MapAxes of src/axis_map.h: the axes that it names have the roles that it names them for.
use carta_zarr.Base.{
  ℕ, suc, ◌+◌, ◌<◌, ◌≡◌, ◌≢◌, refl, true, false, List, [], ◌∷◌, some, Result, ok, err, arith, ◌==◌,
  get_elem?, length, Result-cases, Bool-cases, inl, inr, String,
}
use carta_zarr.Image.{AxisRole, AxisDescriptor, ImageDescriptor}
use carta_zarr.Planes.{AxisMap, Found, note_role, note_axes, finish_map, nothing_found, map_axes}
use native.Mathlib.Decide.{dec_lt}

-- The axis at `i` has that role.
abbrev pub HasRole : List AxisDescriptor → ℕ → AxisRole → Type 0
HasRole axes i role = (a : AxisDescriptor) × (get_elem? axes i ≡ some a) × (a.role ≡ role)

-- Every axis below `at` that has no known role has one element.
abbrev pub OthersAreOne : List AxisDescriptor → ℕ → Type 0
OthersAreOne axes at =
    (i : ℕ) (a : AxisDescriptor)
    → i < at
    → get_elem? axes i ≡ some a
    → a.role ≡ AxisRole.other
    → a.length ≡ 1

-- No axis below `at` has that role.
abbrev pub NoneHas : List AxisDescriptor → ℕ → AxisRole → Type 0
NoneHas axes at role =
    (i : ℕ) (a : AxisDescriptor) → i < at → get_elem? axes i ≡ some a → a.role ≢ role

record Seen (axes : List AxisDescriptor) (at : ℕ) (f : Found) : Type 0 where
  x : f.has_x ≡ true → HasRole axes f.map.x AxisRole.spatial_x
  y : f.has_y ≡ true → HasRole axes f.map.y AxisRole.spatial_y
  spectral : f.has_spectral ≡ true → HasRole axes f.map.spectral AxisRole.spectral
  polarization :
      f.map.has_polarization ≡ true → HasRole axes f.map.polarization AxisRole.polarization
  time : f.map.has_time ≡ true → HasRole axes f.map.time AxisRole.time
  no_polarization : f.map.has_polarization ≡ false → NoneHas axes at AxisRole.polarization
  no_time : f.map.has_time ≡ false → NoneHas axes at AxisRole.time
  others : OthersAreOne axes at

-- What holds of the value, if there is one.
abbrev Holds : (Found → Type 0) → Result Found → Type 0
Holds P (ok f) = P f
Holds P (err e) = Unit

module _ (axes : List AxisDescriptor) (at : ℕ) (a : AxisDescriptor)
    (here : get_elem? axes at ≡ some a) where
  more_none : (role : AxisRole) → a.role ≢ role → NoneHas axes at role → NoneHas axes (suc at) role
  more_none role other h i b l e = elim (dec_lt i at) [
    | yes p ↦ h i b p e
    | no p ↦ let same : i ≡ at = omega arith in ground (arith, here, e, same)
  ]

  more_ones :
      (a.role ≡ AxisRole.other → a.length ≡ 1) → OthersAreOne axes at → OthersAreOne axes (suc at)
  more_ones one h i b l e = elim (dec_lt i at) [
    | yes p ↦ h i b p e
    | no p ↦ let same : i ≡ at = omega arith in ground (arith, here, e, same)
  ]

  note-Seen :
      (role : AxisRole) (node : String) (f : Found)
      → a.role ≡ role
      → Seen axes at f
      → Holds (Seen axes (suc at)) (note_role role node at a f)
  unfolding note_role
  note-Seen AxisRole.spatial_x node f r s = record {
    x = λ _. (a, here, r);
    y = s.y;
    spectral = s.spectral;
    polarization = s.polarization;
    time = s.time;
    no_polarization = λ n. more_none _ (ground arith) (s.no_polarization n);
    no_time = λ n. more_none _ (ground arith) (s.no_time n);
    others = more_ones (ground arith) s.others;
  }
  note-Seen AxisRole.spatial_y node f r s = record {
    x = s.x;
    y = λ _. (a, here, r);
    spectral = s.spectral;
    polarization = s.polarization;
    time = s.time;
    no_polarization = λ n. more_none _ (ground arith) (s.no_polarization n);
    no_time = λ n. more_none _ (ground arith) (s.no_time n);
    others = more_ones (ground arith) s.others;
  }
  note-Seen AxisRole.spectral node f r s = record {
    x = s.x;
    y = s.y;
    spectral = λ _. (a, here, r);
    polarization = s.polarization;
    time = s.time;
    no_polarization = λ n. more_none _ (ground arith) (s.no_polarization n);
    no_time = λ n. more_none _ (ground arith) (s.no_time n);
    others = more_ones (ground arith) s.others;
  }
  note-Seen AxisRole.polarization node f r s = record {
    x = s.x;
    y = s.y;
    spectral = s.spectral;
    polarization = λ _. (a, here, r);
    time = s.time;
    no_polarization = λ n. cc;
    no_time = λ n. more_none _ (ground arith) (s.no_time n);
    others = more_ones (ground arith) s.others;
  }
  note-Seen AxisRole.time node f r s = record {
    x = s.x;
    y = s.y;
    spectral = s.spectral;
    polarization = s.polarization;
    time = λ _. (a, here, r);
    no_polarization = λ n. more_none _ (ground arith) (s.no_polarization n);
    no_time = λ n. cc;
    others = more_ones (ground arith) s.others;
  }
  note-Seen AxisRole.other node f r s = elim (Bool-cases (a.length == 1)) [
    | inr long ↦ rw long tt
    | inl one ↦ rw one (record {
      x = s.x;
      y = s.y;
      spectral = s.spectral;
      polarization = s.polarization;
      time = s.time;
      no_polarization = λ n. more_none _ (ground arith) (s.no_polarization n);
      no_time = λ n. more_none _ (ground arith) (s.no_time n);
      others = more_ones (ground arith) s.others;
    })
  ]

note_axes-Seen :
    (axes rest : List AxisDescriptor) (node : String) (at : ℕ) (f : Found)
    → ((i : ℕ) → get_elem? axes (at + i) ≡ get_elem? rest i)
    → Seen axes at f
    → Holds (Seen axes (at + length rest)) (note_axes node at rest f)
unfolding note_axes
note_axes-Seen axes [] node at f same s = let e : at + 0 ≡ at = omega arith in rw e s
note_axes-Seen axes (a ∷ rest) node at f same s =
    elim (Result-cases (note_role a.role node at a f)) [
      | inr (x, bad) ↦ rw (bad, note_axes) tt
      | inl (f', good) ↦
          let e : at + 0 ≡ at = omega arith in
          let here : get_elem? axes at ≡ some a = rw e at (same 0) in
          let next : Seen axes (suc at) f' =
            rw good at (note-Seen axes at a here a.role node f refl s) in
          let next_at : at + 1 ≡ suc at = omega arith in
          let shift : suc at + length rest ≡ at + suc (length rest) = omega arith in
          let following : (i : ℕ) → get_elem? axes (suc at + i) ≡ get_elem? rest i =
            λ i. let k : at + suc i ≡ suc at + i = omega arith in rw k at (same (suc i)) in
          rw (good, next_at, ← shift, note_axes)
            (note_axes-Seen axes rest node (suc at) f' following next)
    ]

-- The axes that a map names have the roles that it names them for; it names no polarization or time
-- axis only where there is none; and an axis of no known role has one element.
pub record IsMapped (axes : List AxisDescriptor) (map : AxisMap) : Type 0 where
  pub x : HasRole axes map.x AxisRole.spatial_x
  pub y : HasRole axes map.y AxisRole.spatial_y
  pub spectral : HasRole axes map.spectral AxisRole.spectral
  pub polarization :
      map.has_polarization ≡ true → HasRole axes map.polarization AxisRole.polarization
  pub no_polarization :
      map.has_polarization ≡ false → NoneHas axes (length axes) AxisRole.polarization
  pub time : map.has_time ≡ true → HasRole axes map.time AxisRole.time
  pub no_time : map.has_time ≡ false → NoneHas axes (length axes) AxisRole.time
  pub others : OthersAreOne axes (length axes)

start-Seen : (axes : List AxisDescriptor) → Seen axes 0 nothing_found
unfolding nothing_found
start-Seen axes = record {
  x = λ e. cc;
  y = λ e. cc;
  spectral = λ e. cc;
  polarization = λ e. cc;
  time = λ e. cc;
  no_polarization = λ _ i a l. absurd (omega arith);
  no_time = λ _ i a l. absurd (omega arith);
  others = λ i a l. absurd (omega arith);
}

finished :
    (node : String) (f : Found) (map : AxisMap)
    → finish_map node f ≡ ok map
    → (f.has_x ≡ true) × (f.has_y ≡ true) × (f.has_spectral ≡ true) × (f.map ≡ map)
unfolding finish_map
finished node f map e = ground arith

-- A map that MapAxes makes of an image's axes names each axis for the role that it has, and leaves out
-- no polarization, time or longer unknown axis.
pub map_axes-IsMapped :
    (d : ImageDescriptor) (map : AxisMap) → map_axes d ≡ ok map → IsMapped d.axes map
unfolding map_axes
map_axes-IsMapped d map e = elim (Result-cases (note_axes d.id 0 d.axes nothing_found)) [
  | inr (x, bad) ↦ cc (rw (bad, map_axes) at e)
  | inl (f, good) ↦
      let zero_add : 0 + length d.axes ≡ length d.axes = omega arith in
      let seen : Seen d.axes (length d.axes) f =
        rw (good, zero_add) at
          (note_axes-Seen d.axes d.axes d.id 0 nothing_found
            (λ i. let k : 0 + i ≡ i = omega arith in rw k refl) (start-Seen d.axes)) in
      let (x, y, z, same) = finished d.id f map (rw (good, map_axes) at e) in
      rw (← same) (record {
        x = seen.x x;
        y = seen.y y;
        spectral = seen.spectral z;
        polarization = seen.polarization;
        no_polarization = seen.no_polarization;
        time = seen.time;
        no_time = seen.no_time;
        others = seen.others;
      })
]
