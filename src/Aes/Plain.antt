-- ===== src/Aes/Plain.antt =====
-- A cipher of the shape that the laws ask for. It does not hide the text, and its random source
-- gives zeros and counts the bytes that were drawn.
use hsm_service.Prelude.{
  ℕ, zero, suc, ◌+◌, ◌-◌, ◌≡◌, refl, [], ◌∷◌, ◌++◌, length, take, take-append, length-append, arith,
}
use hsm_service.Domain.Entities.{Bytes}
use hsm_service.Exec.{Reply, ok}
use hsm_service.Aes.{Aead, tag_size}
use hsm_service.Aes.Laws.{AeadLaws}

unfoldable pub zeros : ℕ → Bytes
zeros zero = []
zeros (suc n) = 0 ∷ zeros n

pub length-zeros : (n : ℕ) → length (zeros n) ≡ n
unfolding zeros
length-zeros zero = refl
length-zeros (suc n) = omega (arith, length-zeros n)

abbrev seal_plainly : Bytes → Bytes → Bytes → Bytes
seal_plainly key nonce text = text ++ zeros tag_size

abbrev open_plainly : Bytes → Bytes → Bytes → Reply Bytes
open_plainly key nonce sealed = ok (take (length sealed - tag_size) sealed)

unfoldable pub toy : Aead ℕ
unfolding zeros
toy = record {
  Block = Bytes;
  Gcm = Bytes;
  new_cipher = λ key. ok key;
  new_gcm = λ block. ok block;
  overhead = λ gcm. tag_size;
  seal = seal_plainly;
  open_sealed = open_plainly;
  read = λ n w. (ok (zeros n), w + n);
}

length-sealed : (text : Bytes) → length (text ++ zeros tag_size) ≡ length text + tag_size
length-sealed text = omega (arith, length-append text (zeros tag_size), length-zeros tag_size)

pub toy-AeadLaws : AeadLaws toy
unfolding toy
toy-AeadLaws = record {
  block = λ key. key;
  gcm = λ key. key;
  cipher_made = λ key h. refl;
  gcm_made = λ key h. refl;
  overhead_is = λ g. refl;
  length-seal = λ g nonce text h. length-sealed text;
  open-seal = λ g nonce text h. ground (
    arith,
    take-append (length (text ++ zeros tag_size) - tag_size) text (zeros tag_size)
        (omega (arith, length-sealed text)),
  );
  length-read = λ n w bs h. ground (arith, length-zeros n);
}

abbrev pub some_key : Bytes
some_key = zeros 32
