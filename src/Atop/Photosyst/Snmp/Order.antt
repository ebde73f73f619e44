-- ===== src/Atop/Photosyst/Snmp/Order.antt =====
-- What photosyst knows of /proc/net/snmp6: for each name the number of its last line.
use practice.Base.{
  ℕ, ◌+◌, ◌<◌, ◌≡◌, refl, sym, ap, ◌∙◌, inl, inr, Bool-cases, true, ltb, if◌then◌else◌, List, [],
  ◌∷◌, get_or, get_or-take, get_or-drop, get_or-replicate, length, drop, replicate, arith,
}
use practice.Base.Text.{Bytes, same_text}
use practice.Atop.Sstat.{Netstat}
use practice.Atop.Photosyst.Scan.{Scanned, scanned, scan_line, read_word, skip_space, read_counts}
use practice.Atop.Photosyst.Lines.{Vars, each_line, each_lines}
use practice.Atop.Photosyst.Snmp.{V6State, v6_count, v6tab, snmp6_line, read_snmp6}
use practice.Atop.Photosyst.Snmp.Table.{
  no_dup, Pair, last_value, IsV6, v6_count-value, v6_count-IsV6,
}

-- The name and the number of each line that has both.
unfoldable pub pairs_of : List Bytes → List Pair
pairs_of [] = []
pairs_of (line ∷ lines) =
    let s = scan_line 1 line [] [] in
    let rest = pairs_of lines in
    if ltb s.nr 2 then rest else record { nam = s.nam; countval = get_or s.cnts 0 0 } ∷ rest

distinct : no_dup v6tab ≡ true
unfolding no_dup practice.Atop.Photosyst.Snmp.Table.contains same_text
distinct = refl

next_state : Scanned → V6State → V6State
next_state t v = if ltb t.nr 2 then v else v6_count v6tab t.nam (get_or t.cnts 0 0) v

each_line-si :
    (line : Bytes) (v : Vars V6State)
    → (let r = each_line 1 snmp6_line line v in r.si) ≡ next_state (scan_line 1 line [] []) v.si
unfolding each_line next_state snmp6_line scan_line
each_line-si line v = let r = read_word (skip_space line) in go r.value (read_counts 1 r.rest)
  where
    go :
        (word : Bytes) (counts : List ℕ)
        → (let s = scanned word counts v.nam v.cnts in
            if ltb s.nr 2 then v.si else v6_count v6tab s.nam (get_or s.cnts 0 0) v.si)
          ≡ (let t = scanned word counts [] [] in
              if ltb t.nr 2 then v.si else v6_count v6tab t.nam (get_or t.cnts 0 0) v.si)
    go [] counts = unfold scanned in refl
    go (c ∷ word) [] = unfold scanned in refl
    go (c ∷ word) (n ∷ counts) = unfold scanned in refl

next_state-IsV6 : (t : Scanned) (v : V6State) → IsV6 v6tab v → IsV6 v6tab (next_state t v)
unfolding next_state
next_state-IsV6 t v w = elim (Bool-cases (ltb t.nr 2)) [
  | inl e ↦ rw e w
  | inr e ↦ rw e (v6_count-IsV6 v6tab distinct t.nam (get_or t.cnts 0 0) v w)
]

next_state-value :
    (line : Bytes) (lines : List Bytes) (v : V6State) (j : ℕ)
    → IsV6 v6tab v
    → j < length v6tab
    → last_value
        (get_or v6tab j [])
        (pairs_of lines)
        (get_or (next_state (scan_line 1 line [] []) v).vals j 0)
      ≡ last_value (get_or v6tab j []) (pairs_of (line ∷ lines)) (get_or v.vals j 0)
unfolding next_state pairs_of last_value
next_state-value line lines v j w b =
    let t = scan_line 1 line [] [] in
    elim (Bool-cases (ltb t.nr 2)) [
      | inl e ↦ rw e refl
      | inr e ↦ rw (e, v6_count-value v6tab distinct t.nam (get_or t.cnts 0 0) v j w b) refl
    ]

lines-value :
    (lines : List Bytes) (v : Vars V6State) (j : ℕ)
    → IsV6 v6tab v.si
    → j < length v6tab
    → (let r = each_lines 1 snmp6_line lines v in let t = r.si in get_or t.vals j 0)
      ≡ (let t = v.si in last_value (get_or v6tab j []) (pairs_of lines) (get_or t.vals j 0))
unfolding each_lines
lines-value [] v j w b = unfold pairs_of last_value in refl
lines-value (line ∷ lines) v j w b =
    let v' = each_line 1 snmp6_line line v in
    let t = scan_line 1 line [] [] in
    let e = each_line-si line v in
    lines-value lines v' j (rw e (next_state-IsV6 t v.si w)) b
    ∙ (rw e (next_state-value line lines v.si j w b))

abbrev pub value_of : List Bytes → ℕ → ℕ
value_of lines j = last_value (get_or v6tab j []) (pairs_of lines) 0

-- What read_snmp6 makes of the file, in whatever order its lines come: each member of the three
-- structures is the number of the last line that has its name in v6tab, and 0 without one.
pub read_snmp6-value :
    (lines : List Bytes) (v : Vars Netstat) (j : ℕ)
    → (let r = read_snmp6 lines v in
        let net = r.si in
        (j < 22 → get_or net.ipv6 j 0 ≡ value_of lines j)
        × (j < 28 → get_or net.icmpv6 j 0 ≡ value_of lines (22 + j))
        × (j < 4 → get_or net.udpv6 j 0 ≡ value_of lines (50 + j)))
unfolding read_snmp6
read_snmp6-value lines v j =
    let start : V6State = record { vals = replicate (length v6tab) 0; cur = 0 } in
    let w : IsV6 v6tab start = record { in_table = omega arith; sized = refl } in
    let vars : Vars V6State = record { nam = v.nam; cnts = 0 ∷ []; si = start } in
    let r = each_lines 1 snmp6_line lines vars in
    let t = r.si in
    let value : (i : ℕ) → i < length v6tab → get_or t.vals i 0 ≡ value_of lines i = λ i b.
      lines-value lines vars i w b
      ∙ ap (last_value (get_or v6tab i []) (pairs_of lines))
          (get_or-replicate (length v6tab) i 0) in
    (
      λ h. get_or-take 22 j t.vals 0 h ∙ value j (omega arith),
      λ h.
          get_or-take 28 j (drop 22 t.vals) 0 h
          ∙ sym (get_or-drop 22 j (22 + j) t.vals 0 refl)
          ∙ value (22 + j) (omega arith),
      λ h.
          get_or-take 4 j (drop 50 t.vals) 0 h
          ∙ sym (get_or-drop 50 j (50 + j) t.vals 0 refl)
          ∙ value (50 + j) (omega arith),
    )
