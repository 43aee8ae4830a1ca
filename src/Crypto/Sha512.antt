-- ===== src/Crypto/Sha512.antt =====
-- stdlib/crypto/sha512/sha512.go.
use wasigoc.Common.{ℕ, zero, suc, ◌+◌, ◌-◌, ◌/◌, ◌^◌, List, [], ◌∷◌, ◌++◌, bit_and, bit_xor}
use wasigoc.Common.{get_or, length}
use wasigoc.Common.Bits.{u64}
use wasigoc.Crypto.Blocks
use wasigoc.Crypto.Blocks.{Scheme, Digest}
use wasigoc.Crypto.Words.{right_rotate64, complement64, big_words64, big_bytes64}

-- The eight words of the chaining value, and the working variables.
pub record Registers : Type 0 where
  pub a : ℕ
  pub b : ℕ
  pub c : ℕ
  pub d : ℕ
  pub e : ℕ
  pub f : ℕ
  pub g : ℕ
  pub hh : ℕ

pub init_h : Registers
init_h = record {
  a = 7640891576956012808;
  b = 13503953896175478587;
  c = 4354685564936845355;
  d = 11912009170470909681;
  e = 5840696475078001361;
  f = 11170449401992604703;
  g = 2270897969802886507;
  hh = 6620516959819538809;
}

pub k_table : List ℕ
k_table =
    4794697086780616226 ∷ 8158064640168781261 ∷ 13096744586834688815 ∷ 16840607885511220156
    ∷ 4131703408338449720 ∷ 6480981068601479193 ∷ 10538285296894168987 ∷ 12329834152419229976
    ∷ 15566598209576043074 ∷ 1334009975649890238 ∷ 2608012711638119052 ∷ 6128411473006802146
    ∷ 8268148722764581231 ∷ 9286055187155687089 ∷ 11230858885718282805 ∷ 13951009754708518548
    ∷ 16472876342353939154 ∷ 17275323862435702243 ∷ 1135362057144423861 ∷ 2597628984639134821
    ∷ 3308224258029322869 ∷ 5365058923640841347 ∷ 6679025012923562964 ∷ 8573033837759648693
    ∷ 10970295158949994411 ∷ 12119686244451234320 ∷ 12683024718118986047 ∷ 13788192230050041572
    ∷ 14330467153632333762 ∷ 15395433587784984357 ∷ 489312712824947311 ∷ 1452737877330783856
    ∷ 2861767655752347644 ∷ 3322285676063803686 ∷ 5560940570517711597 ∷ 5996557281743188959
    ∷ 7280758554555802590 ∷ 8532644243296465576 ∷ 9350256976987008742 ∷ 10552545826968843579
    ∷ 11727347734174303076 ∷ 12113106623233404929 ∷ 14000437183269869457 ∷ 14369950271660146224
    ∷ 15101387698204529176 ∷ 15463397548674623760 ∷ 17586052441742319658 ∷ 1182934255886127544
    ∷ 1847814050463011016 ∷ 2177327727835720531 ∷ 2830643537854262169 ∷ 3796741975233480872
    ∷ 4115178125766777443 ∷ 5681478168544905931 ∷ 6601373596472566643 ∷ 7507060721942968483
    ∷ 8399075790359081724 ∷ 8693463985226723168 ∷ 9568029438360202098 ∷ 10144078919501101548
    ∷ 10430055236837252648 ∷ 11840083180663258601 ∷ 13761210420658862357 ∷ 14299343276471374635
    ∷ 14566680578165727644 ∷ 15097957966210449927 ∷ 16922976911328602910 ∷ 17689382322260857208
    ∷ 500013540394364858 ∷ 748580250866718886 ∷ 1242879168328830382 ∷ 1977374033974150939
    ∷ 2944078676154940804 ∷ 3659926193048069267 ∷ 4368137639120453308 ∷ 4836135668995329356
    ∷ 5532061633213252278 ∷ 6448918945643986474 ∷ 6902733635092675308 ∷ 7801388544844847127 ∷ []

-- The word `w[i]` of the message schedule, and the loop that adds `n` of them.
pub schedule_word : List ℕ → ℕ → ℕ
schedule_word w i =
    let x = get_or w (i - 15) 0 in
    let y = get_or w (i - 2) 0 in
    let s0 = bit_xor (bit_xor (right_rotate64 x 1) (right_rotate64 x 8)) (x / 2 ^ 7) in
    let s1 = bit_xor (bit_xor (right_rotate64 y 19) (right_rotate64 y 61)) (y / 2 ^ 6) in
    u64 (u64 (u64 (get_or w (i - 16) 0 + s0) + get_or w (i - 7) 0) + s1)

pub schedule_loop : ℕ → List ℕ → List ℕ
schedule_loop zero w = w
schedule_loop (suc n) w = schedule_loop n (w ++ schedule_word w (length w) ∷ [])

pub round : ℕ → ℕ → Registers → Registers
round k w r =
    let s1 =
      bit_xor (bit_xor (right_rotate64 (r.e) 14) (right_rotate64 (r.e) 18))
        (right_rotate64 (r.e) 41) in
    let ch = bit_xor (bit_and (r.e) (r.f)) (bit_and (complement64 (r.e)) (r.g)) in
    let temp1 = u64 (u64 (u64 (u64 (r.hh + s1) + ch) + k) + w) in
    let s0 =
      bit_xor (bit_xor (right_rotate64 (r.a) 28) (right_rotate64 (r.a) 34))
        (right_rotate64 (r.a) 39) in
    let maj = bit_xor (bit_xor (bit_and (r.a) (r.b)) (bit_and (r.a) (r.c))) (bit_and (r.b) (r.c)) in
    let temp2 = u64 (s0 + maj) in
    record {
      a = u64 (temp1 + temp2);
      b = r.a;
      c = r.b;
      d = r.c;
      e = u64 (r.d + temp1);
      f = r.e;
      g = r.f;
      hh = r.g;
    }

-- The rounds, with the constants and the words that are left.
pub rounds_loop : List ℕ → List ℕ → Registers → Registers
rounds_loop (k ∷ ks) (w ∷ ws) r = rounds_loop ks ws (round k w r)
rounds_loop ks ws r = r

pub process_block : List ℕ → Registers → Registers
process_block chunk h =
    let r = rounds_loop k_table (schedule_loop 64 (big_words64 chunk)) h in
    record {
      a = u64 (h.a + r.a);
      b = u64 (h.b + r.b);
      c = u64 (h.c + r.c);
      d = u64 (h.d + r.d);
      e = u64 (h.e + r.e);
      f = u64 (h.f + r.f);
      g = u64 (h.g + r.g);
      hh = u64 (h.hh + r.hh);
    }

unfoldable pub hash_to_bytes : Registers → List ℕ
hash_to_bytes h =
    big_bytes64 (h.a)
    ++ (big_bytes64 (h.b)
        ++ (big_bytes64 (h.c)
            ++ (big_bytes64 (h.d)
                ++ (big_bytes64 (h.e)
                    ++ (big_bytes64 (h.f) ++ (big_bytes64 (h.g) ++ big_bytes64 (h.hh)))))))

abbrev pub scheme : Scheme Registers
scheme = record {
  start = init_h;
  process_block = process_block;
  bytes_of = hash_to_bytes;
  block = 128;
  room = 112;
  length_field = λ bits. 0 ∷ 0 ∷ 0 ∷ 0 ∷ 0 ∷ 0 ∷ 0 ∷ 0 ∷ big_bytes64 bits;
}

unfoldable pub pad_block : List ℕ → ℕ → List ℕ
pad_block tail bits = Blocks.pad_block scheme tail bits

unfoldable pub sum_of : List ℕ → List ℕ
sum_of bytes = Blocks.sum_of scheme bytes

unfoldable pub new : Digest Registers
new = Blocks.new scheme

unfoldable pub write : Digest Registers → List ℕ → Digest Registers
write d p = Blocks.write scheme d p

unfoldable pub sum : Digest Registers → List ℕ → List ℕ
sum d b = Blocks.sum scheme d b

unfoldable pub reset : Digest Registers → Digest Registers
reset d = Blocks.reset scheme d
