-- ===== src/Tests/Pool.antt =====
-- The index pool of env/src/structs/index_pool.c with two indexes, and the smaller parts at single
-- inputs.
use klint.Base.{◌+◌, ◌≡◌, refl, ◌%◌, true, false, some, [], ◌∷◌, get_or, arith}
use klint.Memory.{u16_mod}
use klint.IndexPool.{IndexPool, index_pool_borrow}
use klint.IndexPool.Spec.{IsValid}
use klint.IndexPool.Borrow.{BorrowContract, index_pool_borrow-BorrowContract}
use klint.Net.{updated_checksum}
use klint.Net.Checksum.{rfc1624, carries, updated_checksum-rfc1624}
use klint.Flow.{Flow}

-- Index 0 was used at time 5, and index 1 is free.
abbrev pool : IndexPool
pool = record {
  timestamps = 5 ∷ 0xffff_ffff_ffff_ffff ∷ [];
  size = 2;
  expiration_time = 10;
  last_borrowed_index = 0;
}

pool-IsValid : IsValid pool
pool-IsValid = record { sized = refl; start = omega arith }

index_pool_borrow-BorrowContract_example : BorrowContract pool 16 (index_pool_borrow pool 16)
index_pool_borrow-BorrowContract_example =
    index_pool_borrow-BorrowContract pool-IsValid 16 (omega arith)

-- At time 16 index 0 has expired, and is taken before the free index 1.
borrow_expired : (index_pool_borrow pool 16).1 ≡ some (0, true)
unfolding index_pool_borrow get_or
borrow_expired = refl

-- At time 15 it is young.
borrow_free : (index_pool_borrow pool 15).1 ≡ some (1, false)
unfolding index_pool_borrow get_or
borrow_free = refl

updated_checksum-rfc1624_example :
    updated_checksum 0x1234 0xabcd 0xabcd
    ≡ (rfc1624 0x1234 0xabcd 0xabcd + carries 0x1234 0xabcd 0xabcd) % u16_mod
updated_checksum-rfc1624_example =
    updated_checksum-rfc1624 0x1234 0xabcd 0xabcd (omega arith) (omega arith) (omega arith)

-- A word that stays as it is changes the checksum.
same_word : updated_checksum 0x1234 0xabcd 0xabcd ≡ 0x1235
unfolding updated_checksum
same_word = refl

abbrev flow : Flow
flow = record {
  src_ip = 0x0100000a;
  dst_ip = 0x08080808;
  src_port = 0x1234;
  dst_port = 0x5000;
  protocol = 6;
}
