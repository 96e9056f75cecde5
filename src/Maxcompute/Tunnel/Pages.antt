-- ===== src/Maxcompute/Tunnel/Pages.antt =====
-- crates/maxcompute-protocol/src/tunnel/session.rs: the pages of a download.
use Prim.Native.Nat.{min}
use roris_db.Prelude.{
  ℕ, zero, suc, ◌+◌, ◌-◌, ◌%◌, ◌^◌, ◌<◌, ◌≤◌, ◌≡◌, refl, sym, ap, ◌∙◌, true, false, some, List, [],
  ◌∷◌, ◌++◌, length, length-drop, take, drop, ltb, leb, arith, Bool-cases, inl, inr,
}
use roris_db.Bytes.{Bytes}
use roris_db.Table.{lookup}
use roris_db.Maxcompute.Tunnel.{Row, DownloadSession, TunnelSessionManager}
use roris_db.Maxcompute.Tunnel.Manager.{Answer, ok, panicked, is_ready, page, get_download_data}

module _ {ℓ} {A : Type ℓ} where
  take_all : (n : ℕ) (xs : List A) → length xs ≤ n → take n xs ≡ xs
  take_all zero [] le = refl
  take_all zero (x ∷ xs) le = absurd (omega arith)
  take_all (suc n) [] le = refl
  take_all (suc n) (x ∷ xs) le = ap (λ ys. x ∷ ys) (take_all n xs (omega arith))

  take_add : (n m : ℕ) (xs : List A) → take (n + m) xs ≡ take n xs ++ take m (drop n xs)
  take_add zero m xs = let e : 0 + m ≡ m = omega arith in ap (λ k. take k xs) e
  take_add (suc n) zero [] = let e : suc n + 0 ≡ suc n = omega arith in ap (λ k. take k []) e
  take_add (suc n) (suc m) [] =
      let e : suc n + suc m ≡ suc (n + suc m) = omega arith in ap (λ k. take k []) e
  take_add (suc n) m (x ∷ xs) =
      let e : suc n + m ≡ suc (n + m) = omega arith in
      ap (λ k. take k (x ∷ xs)) e ∙ ap (λ ys. x ∷ ys) (take_add n m xs)

  pub drop_add : (n m : ℕ) (xs : List A) → drop (n + m) xs ≡ drop m (drop n xs)
  drop_add zero m xs = let e : 0 + m ≡ m = omega arith in ap (λ k. drop k xs) e
  drop_add (suc n) zero [] = let e : suc n + 0 ≡ suc n = omega arith in ap (λ k. drop k []) e
  drop_add (suc n) (suc m) [] =
      let e : suc n + suc m ≡ suc (n + suc m) = omega arith in ap (λ k. drop k []) e
  drop_add (suc n) m (x ∷ xs) =
      let e : suc n + m ≡ suc (n + m) = omega arith in ap (λ k. drop k (x ∷ xs)) e ∙ drop_add n m xs

take_past : (n : ℕ) (rows : List Row) → length rows ≡ 0 → take n rows ≡ []
take_past zero rows e = refl
take_past (suc n) [] e = refl
take_past (suc n) (row ∷ rows) e = absurd (omega arith)

pub page_lem :
    (start row_count : ℕ) (rows : List Row)
    → start + row_count < 2 ^ 64
    → page start row_count rows ≡ ok (take row_count (drop start rows))
unfolding page
page_lem start row_count rows small = elim (Bool-cases (leb (length rows) start)) [
  | inl e ↦
      rw e (
        ap ok
          (sym (take_past row_count (drop start rows) (ground (arith, length-drop start rows)))))
  | inr e ↦
      let whole : (start + row_count) % 2 ^ 64 ≡ start + row_count = omega arith in
      elim (Bool-cases (leb (start + row_count) (length rows))) [
        | inl f ↦
            let end : min ((start + row_count) % 2 ^ 64) (length rows) ≡ start + row_count =
              ground arith in
            let order : ltb (start + row_count) start ≡ false = ground arith in
            let size : start + row_count - start ≡ row_count = omega arith in
            rw (e, end, order, size) refl
        | inr f ↦
            let end : min ((start + row_count) % 2 ^ 64) (length rows) ≡ length rows =
              ground arith in
            let order : ltb (length rows) start ≡ false = ground arith in
            rw (e, end, order)
              (ap ok (
                take_all (length rows - start) (drop start rows)
                  (omega (arith, length-drop start rows))
                ∙ sym (
                    take_all row_count (drop start rows) (ground (arith, length-drop start rows)))))
      ]
]

data_of :
    (id : Bytes) (start n : ℕ) (m : TunnelSessionManager) (s : DownloadSession)
    → lookup id m.download_sessions ≡ some s
    → is_ready s.status ≡ true
    → get_download_data id start n m ≡ page start n s.cached_data
unfolding get_download_data
data_of id start n m s there ready = rw (there, get_download_data, ready) refl

abbrev pub append_pages : Answer (List Row) → Answer (List Row) → Answer (List Row)
append_pages (ok a) (ok b) = ok (a ++ b)
append_pages (ok a) other = other
append_pages other _ = other

-- Two pages of a download that follow each other are the page of their lengths together, as long as the
-- positions stay below 2^64.
pub get_download_data-append :
    (id : Bytes) (start n k : ℕ) (m : TunnelSessionManager) (s : DownloadSession)
    → lookup id m.download_sessions ≡ some s
    → is_ready s.status ≡ true
    → start + n + k < 2 ^ 64
    → get_download_data id start (n + k) m
      ≡ append_pages (get_download_data id start n m) (get_download_data id (start + n) k m)
get_download_data-append id start n k m s there ready small =
    let rows : List Row = s.cached_data in
    data_of id start (n + k) m s there ready
    ∙ page_lem start (n + k) rows (omega arith)
    ∙ ap ok (
        take_add n k (drop start rows)
        ∙ ap (λ rest. take n (drop start rows) ++ take k rest) (sym (drop_add start n rows)))
    ∙ sym (
        ap (λ a. append_pages a (ok (take k (drop (start + n) rows))))
          (data_of id start n m s there ready ∙ page_lem start n rows (omega arith)))
    ∙ sym (
        ap (append_pages (get_download_data id start n m))
          (data_of id (start + n) k m s there ready ∙ page_lem (start + n) k rows small))

-- A page that starts inside the data and is so long that its end wraps around panics.
pub get_download_data_wraps :
    (id : Bytes) (start n : ℕ) (m : TunnelSessionManager) (s : DownloadSession)
    → lookup id m.download_sessions ≡ some s
    → is_ready s.status ≡ true
    → start < length s.cached_data
    → n < 2 ^ 64
    → 2 ^ 64 ≤ start + n
    → start < 2 ^ 64
    → get_download_data id start n m ≡ panicked
unfolding page
get_download_data_wraps id start n m s there ready inside small over below =
    let past : leb (length s.cached_data) start ≡ false = ground arith in
    let order : ltb (min ((start + n) % 2 ^ 64) (length s.cached_data)) start ≡ true =
      ground arith in
    data_of id start n m s there ready ∙ rw (past, order) refl
