-- ===== src/P9/Msg.antt =====
-- The message types of crates/star9-protocol/src/p9.rs (`mod msg`).
use star.Base.{ℕ}

abbrev pub rlerror : ℕ
rlerror = 7

abbrev pub tlopen : ℕ
tlopen = 12

abbrev pub rlopen : ℕ
rlopen = 13

abbrev pub tlcreate : ℕ
tlcreate = 14

abbrev pub rlcreate : ℕ
rlcreate = 15

abbrev pub tsymlink : ℕ
tsymlink = 16

abbrev pub rsymlink : ℕ
rsymlink = 17

abbrev pub treadlink : ℕ
treadlink = 22

abbrev pub rreadlink : ℕ
rreadlink = 23

abbrev pub tgetattr : ℕ
tgetattr = 24

abbrev pub rgetattr : ℕ
rgetattr = 25

abbrev pub tsetattr : ℕ
tsetattr = 26

abbrev pub rsetattr : ℕ
rsetattr = 27

abbrev pub txattrwalk : ℕ
txattrwalk = 30

abbrev pub rxattrwalk : ℕ
rxattrwalk = 31

abbrev pub txattrcreate : ℕ
txattrcreate = 32

abbrev pub rxattrcreate : ℕ
rxattrcreate = 33

abbrev pub treaddir : ℕ
treaddir = 40

abbrev pub rreaddir : ℕ
rreaddir = 41

abbrev pub tfsync : ℕ
tfsync = 50

abbrev pub rfsync : ℕ
rfsync = 51

abbrev pub tlink : ℕ
tlink = 70

abbrev pub rlink : ℕ
rlink = 71

abbrev pub tmkdir : ℕ
tmkdir = 72

abbrev pub rmkdir : ℕ
rmkdir = 73

abbrev pub trenameat : ℕ
trenameat = 74

abbrev pub rrenameat : ℕ
rrenameat = 75

abbrev pub tunlinkat : ℕ
tunlinkat = 76

abbrev pub runlinkat : ℕ
runlinkat = 77

abbrev pub tversion : ℕ
tversion = 100

abbrev pub rversion : ℕ
rversion = 101

abbrev pub tattach : ℕ
tattach = 104

abbrev pub rattach : ℕ
rattach = 105

abbrev pub tflush : ℕ
tflush = 108

abbrev pub rflush : ℕ
rflush = 109

abbrev pub twalk : ℕ
twalk = 110

abbrev pub rwalk : ℕ
rwalk = 111

abbrev pub tread : ℕ
tread = 116

abbrev pub rread : ℕ
rread = 117

abbrev pub twrite : ℕ
twrite = 118

abbrev pub rwrite : ℕ
rwrite = 119

abbrev pub tclunk : ℕ
tclunk = 120

abbrev pub rclunk : ℕ
rclunk = 121

abbrev pub tremove : ℕ
tremove = 122

abbrev pub rremove : ℕ
rremove = 123
