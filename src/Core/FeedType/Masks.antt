-- ===== src/Core/FeedType/Masks.antt =====
-- core/FeedType.h: the named feed types, masks of 32 bits.
use rdm.Prelude.{ℕ}

-- `uint32_t`
abbrev pub Mask : Type 0
Mask = ℕ

abbrev pub none_feed : Mask
none_feed = 0

abbrev pub ft0 : Mask
ft0 = 1

abbrev pub pps : Mask
pps = 1

abbrev pub ft1 : Mask
ft1 = 2

abbrev pub dds : Mask
dds = 2

abbrev pub ddplus : Mask
ddplus = 3

abbrev pub ft2 : Mask
ft2 = 4

abbrev pub hds : Mask
hds = 4

abbrev pub hrs : Mask
hrs = 4

abbrev pub ft3 : Mask
ft3 = 8

abbrev pub ids : Mask
ids = 8

abbrev pub intnl : Mask
intnl = 8

abbrev pub ft4 : Mask
ft4 = 16

abbrev pub spare : Mask
spare = 16

abbrev pub wmo : Mask
wmo = 15

abbrev pub ft5 : Mask
ft5 = 32

abbrev pub uniwisc : Mask
uniwisc = 32

abbrev pub mcidas : Mask
mcidas = 32

abbrev pub unidata : Mask
unidata = 47

abbrev pub ft6 : Mask
ft6 = 64

abbrev pub pcws : Mask
pcws = 64

abbrev pub acars : Mask
acars = 64

abbrev pub ft7 : Mask
ft7 = 128

abbrev pub fsl2 : Mask
fsl2 = 128

abbrev pub profiler : Mask
profiler = 128

abbrev pub ft8 : Mask
ft8 = 256

abbrev pub fsl3 : Mask
fsl3 = 256

abbrev pub ft9 : Mask
ft9 = 512

abbrev pub fsl4 : Mask
fsl4 = 512

abbrev pub ft10 : Mask
ft10 = 1024

abbrev pub fsl5 : Mask
fsl5 = 1024

abbrev pub fsl : Mask
fsl = 1984

abbrev pub ft11 : Mask
ft11 = 2048

abbrev pub afos : Mask
afos = 2048

abbrev pub gpssrc : Mask
gpssrc = 2048

abbrev pub ft12 : Mask
ft12 = 4096

abbrev pub conduit : Mask
conduit = 4096

abbrev pub nmc2 : Mask
nmc2 = 4096

abbrev pub nceph : Mask
nceph = 4096

abbrev pub ft13 : Mask
ft13 = 8192

abbrev pub nmc3 : Mask
nmc3 = 8192

abbrev pub fnexrad : Mask
fnexrad = 8192

abbrev pub nmc : Mask
nmc = 14336

abbrev pub ft14 : Mask
ft14 = 16384

abbrev pub nldn : Mask
nldn = 16384

abbrev pub ft15 : Mask
ft15 = 32768

abbrev pub wsi : Mask
wsi = 32768

abbrev pub ft16 : Mask
ft16 = 65536

abbrev pub difax : Mask
difax = 65536

abbrev pub satellite : Mask
satellite = 65536

abbrev pub ft17 : Mask
ft17 = 131072

abbrev pub faa604 : Mask
faa604 = 131072

abbrev pub ft18 : Mask
ft18 = 262144

abbrev pub gps : Mask
gps = 262144

abbrev pub ft19 : Mask
ft19 = 524288

abbrev pub seismic : Mask
seismic = 524288

abbrev pub nogaps : Mask
nogaps = 524288

abbrev pub fnmoc : Mask
fnmoc = 524288

abbrev pub ft20 : Mask
ft20 = 1048576

abbrev pub cmc : Mask
cmc = 1048576

abbrev pub gem : Mask
gem = 1048576

abbrev pub ft21 : Mask
ft21 = 2097152

abbrev pub nimage : Mask
nimage = 2097152

abbrev pub image : Mask
image = 2097152

abbrev pub ft22 : Mask
ft22 = 4194304

abbrev pub ntext : Mask
ntext = 4194304

abbrev pub text_feed : Mask
text_feed = 4194304

abbrev pub ft23 : Mask
ft23 = 8388608

abbrev pub ngrid : Mask
ngrid = 8388608

abbrev pub grid : Mask
grid = 8388608

abbrev pub ft24 : Mask
ft24 = 16777216

abbrev pub npoint : Mask
npoint = 16777216

abbrev pub point_feed : Mask
point_feed = 16777216

abbrev pub nbufr : Mask
nbufr = 16777216

abbrev pub bufr : Mask
bufr = 16777216

abbrev pub ft25 : Mask
ft25 = 33554432

abbrev pub ngraph : Mask
ngraph = 33554432

abbrev pub graph : Mask
graph = 33554432

abbrev pub ft26 : Mask
ft26 = 67108864

abbrev pub nother : Mask
nother = 67108864

abbrev pub other : Mask
other = 67108864

abbrev pub nport : Mask
nport = 130023424

abbrev pub ft27 : Mask
ft27 = 134217728

abbrev pub nexrad3 : Mask
nexrad3 = 134217728

abbrev pub nnexrad : Mask
nnexrad = 134217728

abbrev pub nexrad : Mask
nexrad = 134217728

abbrev pub ft28 : Mask
ft28 = 268435456

abbrev pub craft : Mask
craft = 268435456

abbrev pub nexrd2 : Mask
nexrd2 = 268435456

abbrev pub nexrad2 : Mask
nexrad2 = 268435456

abbrev pub ft29 : Mask
ft29 = 536870912

abbrev pub nxrdsrc : Mask
nxrdsrc = 536870912

abbrev pub ft30 : Mask
ft30 = 1073741824

abbrev pub exp : Mask
exp = 0x40000000

abbrev pub any_feed : Mask
any_feed = 0xffffffff
