-- ===== src/Channel/Buffer.antt =====
-- The output buffer of `encrypt_openssl` and `decrypt_openssl`: a string resized in advance, which
-- the library fills from the front through a moving pointer, and which is cut down to that pointer
-- at the end. A write past its size is undefined behaviour.
use libonionrequests.Common.{
  ℕ, ◌+◌, ◌≤◌, ◌≡◌, Bytes, [], ◌++◌, length, leb, le→leb, Result, ok, requires, ◌>>◌,
}

pub record Buffer : Type 0 where
  pub size : ℕ
  pub written : Bytes

abbrev pub allocate : ℕ → Buffer
allocate n = record { size = n; written = [] }

unfoldable pub put : Buffer → Bytes → Result Buffer
put b text = do
  requires (leb (length b.written + length text) b.size)
  ok (record b { written = b.written ++ text })

-- A write that fits appends.
pub put_fits :
    (n : ℕ) (done text : Bytes)
    → length done + length text ≤ n
    → put (record { size = n; written = done }) text
      ≡ ok (record { size = n; written = done ++ text })
unfolding put
put_fits n done text h = rw (le→leb (length done + length text) n h)
