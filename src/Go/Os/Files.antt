-- ===== src/Go/Os/Files.antt =====
-- What a write and a removal do to the files that are read afterwards.
use natsie.Base.{String, List, [], ◌∷◌, none, some, string_eq, ◌≡◌, ◌≢◌, arith, ◌⊎◌, inl, inr}
use natsie.Base.Result.{ok, err}
use natsie.Go.Os.{not_exist, Node, file, Fs, find, put, erase, stat, read_file, write_file, remove}

find-put-same : (p : String) (n : Node) (ns : List (String × Node)) → find p (put p n ns) ≡ some n
unfolding find put
find-put-same p n [] = ground arith
find-put-same p n ((q, m) ∷ ns) = ground (arith, find-put-same p n ns)

find-put-other :
    (p q : String) (n : Node) (ns : List (String × Node)) → p ≢ q → find q (put p n ns) ≡ find q ns
unfolding find put
find-put-other p q n [] d = ground arith
find-put-other p q n ((r, m) ∷ ns) d = ground (arith, find-put-other p q n ns d)

find-erase-same : (p : String) (ns : List (String × Node)) → find p (erase p ns) ≡ none
unfolding find erase
find-erase-same p [] = ground arith
find-erase-same p ((q, m) ∷ ns) = ground (arith, find-erase-same p ns)

find-erase-other :
    (p q : String) (ns : List (String × Node)) → p ≢ q → find q (erase p ns) ≡ find q ns
unfolding find erase
find-erase-other p q [] d = ground arith
find-erase-other p q ((r, m) ∷ ns) d = ground (arith, find-erase-other p q ns d)

pub read_file-write_file :
    (fs : Fs) (p text : String) {fs' : Fs}
    → write_file fs p text ≡ (ok tt, fs')
    → read_file fs' p ≡ ok text
unfolding write_file read_file stat
read_file-write_file fs p text e = ground (arith, find-put-same p (file text) fs.nodes)

pub stat-write_file-other :
    (fs : Fs) (p q text : String) → p ≢ q → stat (write_file fs p text).1 q ≡ stat fs q
unfolding write_file stat
stat-write_file-other fs p q text d = ground (arith, find-put-other p q (file text) fs.nodes d)

pub stat-remove-other : (fs : Fs) (p q : String) → p ≢ q → stat (remove fs p).1 q ≡ stat fs q
unfolding remove stat
stat-remove-other fs p q d = ground (arith, find-erase-other p q fs.nodes d)

pub stat-remove-same :
    (fs : Fs) (p : String)
    → ((remove fs p).0 ≡ ok tt) ⊎ ((remove fs p).0 ≡ err not_exist)
    → stat (remove fs p).1 p ≡ err not_exist
unfolding remove stat
stat-remove-same fs p (inl e) = ground (arith, find-erase-same p fs.nodes)
stat-remove-same fs p (inr e) = ground (arith, find-erase-same p fs.nodes)
